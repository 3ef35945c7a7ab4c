-- ===== src/Syscalls/Quiet/Mem.antt =====
-- Mapping and unmapping memory is quiet.
use libtux.Base.{
  ℕ, ◌+◌, ◌%◌, ◌≡◌, ◌==◌, refl, List, [], ◌∷◌, true, false, arith, ℤ, pos, is_neg, int_eq, pos_part,
  if◌then◌else◌, ◌&&◌, leb, ltb, bit_or, Bool, Bool-cases, inl, inr,
}
use libtux.World.{Ptr, null, Call, Answer, HostFile, FdFile, World, Cmd, pure, assert}
use libtux.Types.{has, not32}
use libtux.Types.Map
use libtux.Types.Prot
use libtux.Host.{host_fd}
use libtux.Host.Memory.{host_mmap, host_mprotect}
use libtux.AddrSpace.{
  as_mapany, as_mapat, as_munmap, as_mprotect, map_or_undo, asmap, cbunmap, inside, failed,
}
use libtux.Align.{word_mod, ceilp, truncp}
use libtux.AddrSpace.Access.{procaddr}
use libtux.Process.{Mapped, map_file, procmapany, procmapat, procunmap}
use libtux.Fd.{slot, fdget, fdhas_x, get_fd_file}
use libtux.Fd.Refs.{IsSound}
use libtux.Fd.Ready.{IsLive}
use libtux.Fd.View.{IsOpen, resolve}
use libtux.Syscalls.Mem.{sys_mmap, sys_mprotect, sys_munmap, legal_flags}
use libtux.Syscalls.Quiet.{Quiet, SameFiles, Quiet-bind}

assert-Quiet : (w : World) (b : Bool) (v : World) → SameFiles w v → Quiet w (assert b v)
assert-Quiet w true v same = same
assert-Quiet w false v same = tt

cbunmap-Quiet : (w : World) (rs : List (ℕ × ℕ)) (v : World) → SameFiles w v → Quiet w (cbunmap rs v)
unfolding cbunmap host_mmap
cbunmap-Quiet w [] v same = same
cbunmap-Quiet w ((start, len) ∷ rs) v same =
    Quiet-bind w
      (host_mmap start len Prot.nothing (bit_or (bit_or Map.anonymous Map.private) Map.fixed) null
        (pos 0) v)
      _ same
      λ (a : Answer) u same'.
        Quiet-bind w _ _ (assert-Quiet w (int_eq a.ret (pos start)) u same')
          λ _ x same''. cbunmap-Quiet w rs x same''

if-Quiet :
    {A : Type 0} (w : World) (b : Bool) (x y : Cmd A) (v : World)
    → Quiet w (x v)
    → Quiet w (y v)
    → Quiet w ((if b then x else y) v)
if-Quiet w true x y v h k = h
if-Quiet w false x y v h k = k

module _ (w : World) (size prot flags : ℕ) (hf : Ptr) (off : ℤ) where
  map_or_undo-Quiet :
      (addr : ℕ) (v : World)
      → SameFiles w v
      → IsLive w hf
      → Quiet w (map_or_undo addr size prot flags hf off v)
  unfolding map_or_undo asmap host_mmap host_fd
  map_or_undo-Quiet addr v same live = ground (arith, same, live)

  as_mapany-Quiet : IsLive w hf → Quiet w (as_mapany size prot flags hf off w)
  unfolding as_mapany
  as_mapany-Quiet live =
      let a = w.oracle w.log (Call.mm_mapany size prot flags) in
      elim (Bool-cases (is_neg a.ret)) [
        | inl e ↦ rw e (refl, refl, refl, refl)
        | inr e ↦ rw e (map_or_undo-Quiet (pos_part a.ret) _ (refl, refl, refl, refl) live)
      ]

  pub as_mapat-Quiet :
      (addr : ℕ) → IsLive w hf → Quiet w (as_mapat w.proc.p_as addr size prot flags hf off w)
  unfolding as_mapat
  as_mapat-Quiet addr live =
      Quiet-bind w _ _ (assert-Quiet w (inside w.proc.p_as addr size) w (refl, refl, refl, refl))
        λ _ v same.
          let a = v.oracle v.log (Call.mm_mapat addr size prot flags) in
          Quiet-bind w _ _ (cbunmap-Quiet w a.unmapped _ same) λ _ u same'.
            if-Quiet w (is_neg a.ret) (pure failed)
              (map_or_undo (pos_part a.ret) size prot flags hf off) u same'
              (map_or_undo-Quiet (pos_part a.ret) u same' live)

as_munmap-Quiet : (w : World) (addr size : ℕ) → Quiet w (as_munmap w.proc.p_as addr size w)
unfolding as_munmap
as_munmap-Quiet w addr size =
    let fits = leb w.proc.p_as.minaddr addr && ltb ((addr + size) % word_mod) w.proc.p_as.maxaddr in
    let a = w.oracle w.log (Call.mm_unmap addr size) in
    let asked : World = record w {
      log = Call.mm_unmap addr size ∷ w.log;
      errno = if is_neg a.ret then a.errno else w.errno;
    } in
    elim (Bool-cases fits) [
      | inl e ↦ rw e (
          Quiet-bind w (cbunmap a.unmapped asked) _
            (cbunmap-Quiet w a.unmapped asked (refl, refl, refl, refl)) λ _ v same. same)
      | inr e ↦ rw e (refl, refl, refl, refl)
    ]

module _ (w : World) (s : IsSound w) where
  map_file_open :
      (fd : ℤ) (map : Ptr → Cmd Mapped) (ff : Ptr) (f : FdFile) (h : HostFile)
      → is_neg fd ≡ false
      → IsOpen w fd ff f h
      → map_file fd map w ≡ map f.dev.file w
  unfolding map_file fdget fdhas_x get_fd_file
  map_file_open fd map ff f h e o = ground (arith, e, o.at, o.not_null, o.file, o.ops)

  -- A mapping is quiet if it is with no file and with a file that is open.
  map_file-Quiet :
      (fd : ℤ) (map : Ptr → Cmd Mapped)
      → ((hf : Ptr) → IsLive w hf → Quiet w (map hf w))
      → Quiet w (map_file fd map w)
  unfolding map_file fdget fdhas_x
  map_file-Quiet fd map each = elim (Bool-cases (is_neg fd)) [
    | inl e ↦ rw e (each null (inl refl))
    | inr e ↦ elim (resolve fd w s) [
      | inl (free, view) ↦
          let z : (slot w.proc.files fd == null) ≡ true = ground (arith, free) in
          rw (e, z) (refl, refl, refl, refl)
      | inr (ff, f, h, o) ↦
          rw (map_file_open fd map ff f h e o) (each f.dev.file (inr (ground (arith, o.device))))
    ]
  ]

  procmapany-Quiet :
      (size prot flags : ℕ) (fd off : ℤ) → Quiet w (procmapany size prot flags fd off w)
  unfolding procmapany
  procmapany-Quiet size prot flags fd off = map_file-Quiet fd _ λ hf live.
      Quiet-bind w (as_mapany size prot flags hf off w) _
        (as_mapany-Quiet w size prot flags hf off live) λ _ v same. same

  procmapat-Quiet :
      (start size prot flags : ℕ) (fd off : ℤ) → Quiet w (procmapat start size prot flags fd off w)
  unfolding procmapat
  procmapat-Quiet start size prot flags fd off = map_file-Quiet fd _ λ hf live.
      Quiet-bind w (as_mapat w.proc.p_as start size prot flags hf off w) _
        (as_mapat-Quiet w size prot flags hf off start live) λ _ v same. same

  pub sys_mmap-Quiet :
      (addrup length prot flags : ℕ) (fd off : ℤ)
      → Quiet w (sys_mmap addrup length prot flags fd off w)
  unfolding sys_mmap
  sys_mmap-Quiet addrup length prot flags fd off =
      let size = ceilp length w.proc.tux.opts.pagesize in
      let start = procaddr w (truncp addrup w.proc.tux.opts.pagesize) in
      elim (Bool-cases (length == 0)) [
        | inl e ↦ rw e (refl, refl, refl, refl)
        | inr e ↦ elim (Bool-cases (has flags (not32 legal_flags))) [
          | inl e' ↦ rw (e, e') (refl, refl, refl, refl)
          | inr e' ↦ elim (Bool-cases (has flags Map.fixed)) [
            | inl e'' ↦
                rw (e, e', e'')
                  (Quiet-bind w (procmapat start size prot flags fd off w) _
                    (procmapat-Quiet start size prot flags fd off) λ _ v same. same)
            | inr e'' ↦
                rw (e, e', e'')
                  (Quiet-bind w (procmapany size prot flags fd off w) _
                    (procmapany-Quiet size prot flags fd off) λ _ v same. same)
          ]
        ]
      ]

  pub sys_munmap-Quiet : (addrup length : ℕ) → Quiet w (sys_munmap addrup length w)
  unfolding sys_munmap procunmap
  sys_munmap-Quiet addrup length = as_munmap-Quiet w _ length

  pub sys_mprotect-Quiet : (addrup length prot : ℕ) → Quiet w (sys_mprotect addrup length prot w)
  unfolding sys_mprotect as_mprotect host_mprotect
  sys_mprotect-Quiet addrup length prot = ground arith
