-- ===== src/AddrSpace.antt =====
-- src/pal/vm.c: an address space of the guest inside the host process, over libmmap and the host's
-- mappings, and the checks of guest pointers in src/syscalls/syscalls.h.
pub mod Access
pub mod Paths
pub mod Frame
pub mod Placed
pub mod Asserted
use libtux.Base.{
  ℕ, zero, suc, ◌+◌, ◌-◌, ◌*◌, ◌%◌, ◌^◌, ◌==◌, Bool, not, ◌&&◌, List, [], ◌∷◌, Option, none, some,
  ltb, leb, if◌then◌else◌, bit_or, ℤ, pos, neg, is_neg, int_eq, pos_part,
}
use libtux.World.{Ptr, null, Call, Answer, AddrSpace, aborted, Cmd, ◌>>=◌, ◌>>◌, pure, ask, assert}
use libtux.Align.{word_mod}
use libtux.Host.{malloc}
use libtux.Types.Prot
use libtux.Types.Map
use libtux.Host.Memory.{host_mmap, host_mprotect}

-- (lfiptr_t) -1
abbrev pub failed : ℕ
failed = word_mod - 1

abbrev pub guardsize : ℕ
guardsize = 80 * 1024

-- `struct PlatOptions`
pub record PlatOptions : Type 0 where
  pub pagesize : ℕ
  pub vmsize : ℕ
  pub sysexternal : Bool

-- The address space that boxmap gives room for, less a guard at either end and a page for the
-- system. Without memory, or where boxmap answers 0 or libmmap fails, there is none. The struct holds
-- one of libmmap's; its size is taken as 144.
unfoldable pub as_new : PlatOptions → Cmd (Option AddrSpace)
as_new opts = do
  room ← malloc 144
  if room == null then pure none else do
    a ← ask (Call.boxmap_addspace opts.vmsize)
    if int_eq a.ret (pos 0) then pure none else do
      let base = pos_part a.ret
      let space : AddrSpace = record {
        base = base;
        size = opts.vmsize;
        minaddr = (base + guardsize + opts.pagesize) % word_mod;
        maxaddr = (base + opts.vmsize - guardsize) % word_mod;
      }
      ready ← ask (
          Call.mm_init space.minaddr ((space.maxaddr + word_mod - space.minaddr) % word_mod)
            opts.pagesize)
      if int_eq ready.ret (pos 0)
          then (do ask (Call.boxmap_rmspace base opts.vmsize); pure none)
          else pure (some space)

-- lfi_as_free fails its assertion.
abbrev pub as_free : {A : Type 0} → Cmd A
as_free w = aborted

-- The host's MAP_FIXED is LFI_MAP_FIXED.
unfoldable pub asmap : ℕ → ℕ → ℕ → ℕ → Ptr → ℤ → Cmd ℤ
asmap start size prot flags hf off = do
  a ← host_mmap start size prot (bit_or flags Map.fixed) hf off
  pure (if is_neg a.ret then neg a.errno else pos 0)

-- The ranges that libmmap takes out are mapped without any access.
unfoldable pub cbunmap : List (ℕ × ℕ) → Cmd (Unit {0})
cbunmap [] = pure tt
cbunmap ((start, len) ∷ rest) = do
  a ←
      host_mmap start len Prot.nothing (bit_or (bit_or Map.anonymous Map.private) Map.fixed) null
        (pos 0)
  assert (int_eq a.ret (pos start))
  cbunmap rest

-- The host's mapping of a range that libmmap has given; if that fails libmmap takes it back.
unfoldable pub map_or_undo : ℕ → ℕ → ℕ → ℕ → Ptr → ℤ → Cmd ℕ
map_or_undo addr size prot flags hf off = do
  r ← asmap addr size prot flags hf off
  if is_neg r then (do ask (Call.mm_unmap addr size); pure failed) else pure addr

-- libmmap's own failure is answered by 0, the host's by -1.
unfoldable pub as_mapany : ℕ → ℕ → ℕ → Ptr → ℤ → Cmd ℕ
as_mapany size prot flags hf off = do
  a ← ask (Call.mm_mapany size prot flags)
  if is_neg a.ret then pure 0 else map_or_undo (pos_part a.ret) size prot flags hf off

-- The condition of the assertions: the sum is that of two words.
abbrev pub inside : AddrSpace → ℕ → ℕ → Bool
inside space addr size = leb space.minaddr addr && leb ((addr + size) % word_mod) space.maxaddr

-- What the mapping makes of the bytes and the access of its pages is the kernel's, and not modelled.
unfoldable pub as_mapat : AddrSpace → ℕ → ℕ → ℕ → ℕ → Ptr → ℤ → Cmd ℕ
as_mapat space addr size prot flags hf off = do
  assert (inside space addr size)
  a ← ask (Call.mm_mapat addr size prot flags)
  cbunmap a.unmapped
  if is_neg a.ret then pure failed else map_or_undo (pos_part a.ret) size prot flags hf off

unfoldable pub as_mprotect : AddrSpace → ℕ → ℕ → ℕ → Cmd ℤ
as_mprotect space addr size prot = do assert (inside space addr size); host_mprotect addr size prot

-- Here the end must lie below the limit.
unfoldable pub as_munmap : AddrSpace → ℕ → ℕ → Cmd ℤ
as_munmap space addr size =
    if leb space.minaddr addr && ltb ((addr + size) % word_mod) space.maxaddr
    then (do a ← ask (Call.mm_unmap addr size); cbunmap a.unmapped; pure a.ret)
    else pure (neg 1)

-- The host's address of a guest pointer, NULL outside of the space.
unfoldable pub as_fmptr : AddrSpace → ℕ → Ptr
as_fmptr space userp = if leb space.minaddr userp && ltb userp space.maxaddr then userp else null

unfoldable pub as_toptr : AddrSpace → Ptr → Cmd ℕ
as_toptr space p = do assert (leb space.minaddr p && ltb p space.maxaddr); pure p

unfoldable pub as_validptr : AddrSpace → ℕ → ℕ
as_validptr space asp = asp
