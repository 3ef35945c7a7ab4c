-- ===== src/Fd/Init.antt =====
-- fdinit: a process gets the standard files.
use libtux.Base.{ℕ, ◌<◌, ◌≡◌, ◌≢◌, refl, arith, get_or, set, get_or-set_ne, ◌∙◌}
use libtux.World.{Ptr, null, Proc, World, ok}
use libtux.Fd.{nofile, fdassign, fdinit}
use libtux.Fd.Refs.{IsSound, holders}
use libtux.Fd.Release.{held}
use libtux.Fd.Table.{assigned, fdassign-IsSound}

abbrev pub with_slot : Proc → ℕ → Ptr → Proc
with_slot p fd ff = record p { files = set p.files fd ff }

-- A held file is given a free descriptor.
assign_held :
    (fd : ℕ) (ff : Ptr) (w : World)
    → IsSound w
    → ff ≢ null
    → 0 < holders w.proc ff
    → fd < nofile
    → get_or w.proc.files fd null ≡ null
    → (v : World) × (fdassign fd ff w ≡ ok tt v) × IsSound v × (v.proc ≡ with_slot w.proc fd ff)
assign_held fd ff w s n some_refs lt free =
    let (f, at, _) = held w ff s.refs n some_refs in
    let (e, sound) =
      fdassign-IsSound fd ff f w s.size s.refs (λ p g ne there. s.keeps p g there) n at lt free in
    (assigned fd ff f w, e, sound, refl)

abbrev pub std_slots : Proc → Proc
std_slots p = with_slot (with_slot (with_slot p 0 p.tux.fstdin) 1 p.tux.fstdout) 2 p.tux.fstderr

-- In a sound state where descriptors 0, 1 and 2 are free, and the engine has its three files, fdinit
-- returns: the descriptors have the files, each with one reference more, and the counts are right.
pub fdinit-IsSound :
    (w : World)
    → IsSound w
    → w.proc.tux.fstdin ≢ null
    → w.proc.tux.fstdout ≢ null
    → w.proc.tux.fstderr ≢ null
    → get_or w.proc.files 0 null ≡ null
    → get_or w.proc.files 1 null ≡ null
    → get_or w.proc.files 2 null ≡ null
    → (v : World) × (fdinit w ≡ ok tt v) × IsSound v × (v.proc ≡ std_slots w.proc)
unfolding fdinit
fdinit-IsSound w s n0 n1 n2 f0 f1 f2 =
    let (u0, e0, s0, p0) = assign_held 0 w.proc.tux.fstdin w s n0 (ground arith) (omega arith) f0 in
    let (u1, e1, s1, p1) =
      assign_held 1 w.proc.tux.fstdout u0 s0 n1 (rw p0 (ground arith)) (omega arith)
        (rw p0 (get_or-set_ne w.proc.files 0 1 w.proc.tux.fstdin null (omega arith) ∙ f1)) in
    let (u2, e2, s2, p2) =
      assign_held 2 w.proc.tux.fstderr u1 s1 n2 (rw (p1, p0) (ground arith)) (omega arith) (
        rw (p1, p0)
          (get_or-set_ne (set w.proc.files 0 w.proc.tux.fstdin) 1 2 w.proc.tux.fstdout null
              (omega arith)
            ∙ get_or-set_ne w.proc.files 0 2 w.proc.tux.fstdin null (omega arith)
            ∙ f2)) in
    (u2, rw (e0, e1, e2) refl, s2, rw (p2, p1, p0) refl)
