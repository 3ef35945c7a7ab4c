-- ===== src/Syscalls/Mem.antt =====
-- src/syscalls/sys_mem.c
use libtux.Base.{
  ℕ, ◌+◌, ◌-◌, ◌*◌, ◌%◌, ◌==◌, ◌&&◌, ltb, leb, if◌then◌else◌, bit_or, ℤ, pos, to_word,
}
use libtux.World.{null, Proc, World, Cmd, ◌>>=◌, ◌>>◌, pure, assert, modify}
use libtux.Align.{word_mod, truncp, ceilp}
use libtux.Types.{has, not32, err, Errno}
use libtux.Types.Prot
use libtux.Types.Map
use libtux.AddrSpace.{as_mapat, as_mprotect, failed}
use libtux.AddrSpace.Access.{procaddr}
use libtux.Process.{Mapped, procmapany, procmapat, procunmap}

-- TUX_BRKMAXSIZE
abbrev pub brkmaxsize : ℕ
brkmaxsize = 512 * 1024 * 1024

-- The current break.
abbrev pub brk_top : Proc → ℕ
brk_top p = (p.brkbase + p.brksize) % word_mod

-- The break that is asked for, moved into the region.
unfoldable pub brk_target : World → ℕ → ℕ
brk_target w addr =
    let p = w.proc in
    let brkp = if addr == 0 then brk_top p else procaddr w addr in
    let brkp = if ltb brkp p.brkbase then p.brkbase else brkp in
    let limit = (p.brkbase + brkmaxsize) % word_mod in if leb limit brkp then limit else brkp

abbrev pub brk_flags : ℕ
brk_flags = bit_or Map.private Map.anonymous

abbrev pub brk_prot : ℕ
brk_prot = bit_or Prot.read Prot.write

-- The range that is mapped when the break grows: its start and its size.
unfoldable pub brk_growth : Proc → ℕ → ℕ × ℕ
brk_growth p newsize =
    if p.brksize == 0
    then (p.brkbase, newsize)
    else (ceilp (brk_top p) p.tux.opts.pagesize, (newsize + word_mod - p.brksize) % word_mod)

abbrev pub set_brksize : ℕ → Cmd (Unit {0})
set_brksize n = modify (λ w. record w { proc = record w.proc { brksize = n } })

unfoldable pub sys_brk : ℕ → Cmd ℕ
sys_brk addr w =
    (do
      let p = w.proc
      let brkp = brk_target w addr
      let newsize = (brkp + word_mod - p.brkbase) % word_mod
      assert (ltb newsize brkmaxsize)
      if newsize == p.brksize then pure brkp else do
        map ←
            if leb (brk_top p) brkp
            then as_mapat p.p_as (brk_growth p newsize).0 (brk_growth p newsize).1 brk_prot
                brk_flags null (pos 0)
            else pure 0
        if leb (brk_top p) brkp && map == failed
            then pure failed
            else do set_brksize newsize; pure ((p.brkbase + newsize) % word_mod))
      w

-- The flags that sys_mmap lets through.
abbrev pub legal_flags : ℕ
legal_flags =
    bit_or (bit_or (bit_or (bit_or Map.anonymous Map.private) Map.noreserve) Map.denywrite)
      Map.fixed

-- A negative errno as the register that the guest sees.
abbrev pub mapped_word : Mapped → ℕ
mapped_word (Mapped.at a) = a
mapped_word (Mapped.refused e) = to_word (err e)

unfoldable pub sys_mmap : ℕ → ℕ → ℕ → ℕ → ℤ → ℤ → Cmd ℕ
sys_mmap addrup length prot flags fd off w =
    (if length == 0
        then pure (to_word (err Errno.einval))
        else let pagesize = w.proc.tux.opts.pagesize in
          let rounded = ceilp length pagesize in
          if has flags (not32 legal_flags) then pure (to_word (err Errno.einval)) else do
            r ←
                if has flags Map.fixed
                then procmapat (procaddr w (truncp addrup pagesize)) rounded prot flags fd off
                else procmapany rounded prot flags fd off
            pure (mapped_word r))
      w

unfoldable pub sys_mprotect : ℕ → ℕ → ℕ → Cmd ℤ
sys_mprotect addrup length prot w = as_mprotect w.proc.p_as (procaddr w addrup) length prot w

unfoldable pub sys_munmap : ℕ → ℕ → Cmd ℤ
sys_munmap addrup length w = procunmap (procaddr w addrup) length w
