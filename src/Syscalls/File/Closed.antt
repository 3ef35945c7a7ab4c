-- ===== src/Syscalls/File/Closed.antt =====
-- What sys_close does to the descriptors.
use libtux.Base.{
  ℕ, ◌<◌, ◌≡◌, ◌≢◌, ◌⊎◌, inl, inr, refl, true, false, get_or, ℤ, pos, negsuc, arith, sym, subst,
}
use libtux.World.{Ptr, null, FdFile, HostFile, World, ok}
use libtux.World.Total.{Holds}
use libtux.Types.{err, Errno}
use libtux.Fd.{nofile, slot, index, fdremove}
use libtux.Fd.Refs.{IsSound, holders}
use libtux.Fd.View.{IsOpen, resolve}
use libtux.Fd.Clear.{fdremove-none}
use libtux.Fd.Release.{Releases}
use libtux.Fd.Table.{cleared, fdremove-IsSound}
use libtux.Syscalls.File.Data.{sys_close}

-- A descriptor that is free is refused and nothing changes. One in use is emptied, its file has one
-- reference fewer, and the last one closes the host's descriptor.
abbrev pub CloseResult : World → ℤ → ℤ → World → Type 0
CloseResult w fd r v =
    ((slot w.proc.files fd ≡ null) × (r ≡ err Errno.ebadf) × (v ≡ w))
    ⊎ ((slot w.proc.files fd ≢ null)
        × (r ≡ pos 0)
        × IsSound v
        × (u : World) × Releases (holders w.proc (slot w.proc.files fd)) (slot w.proc.files fd) w u
        × (v ≡ cleared (index fd) u))

sys_close_free :
    (fd : ℤ) (w : World) → fdremove fd w ≡ ok false w → sys_close fd w ≡ ok (err Errno.ebadf) w
unfolding sys_close
sys_close_free fd w e = rw e refl

sys_close_used :
    (fd : ℕ) (w v : World) → fdremove (pos fd) w ≡ ok true v → sys_close (pos fd) w ≡ ok (pos 0) v
unfolding sys_close
sys_close_used fd w v e = rw e refl

close_open :
    (fd : ℤ) (w : World)
    → IsSound w
    → (ff : Ptr) (f : FdFile) (h : HostFile) → IsOpen w fd ff f h
    → Holds (CloseResult w fd) (sys_close fd w)
close_open (negsuc n) w s ff f h o = absurd (o.not_null (sym o.at))
close_open (pos n) w s ff f h o =
    let at : slot w.proc.files (pos n) ≡ get_or w.proc.files n null =
      ground (arith, o.at, o.not_null) in
    let lt : n < nofile = ground (arith, o.at, o.not_null) in
    let used : slot w.proc.files (pos n) ≢ null = ground (arith, o.at, o.not_null) in
    let nz : get_or w.proc.files n null ≢ null = ground (arith, at, used) in
    let (v, e, sound, r) = fdremove-IsSound n w s lt nz in
    rw (sys_close_used n w (cleared n v) e)
      (inr (used, refl, sound, v, subst (λ p. Releases (holders w.proc p) p w v) (sym at) r, refl))

-- In a sound state sys_close returns: a descriptor in use is free after it, its file has lost one
-- reference, and the counts are right; any other number is answered by -TUX_EBADF.
pub sys_close-CloseResult :
    (fd : ℤ) (w : World) → IsSound w → Holds (CloseResult w fd) (sys_close fd w)
sys_close-CloseResult fd w s = elim (resolve fd w s) [
  | inl (free, view) ↦ rw (sys_close_free fd w (fdremove-none fd w free)) (inl (free, refl, refl))
  | inr (ff, f, h, o) ↦ close_open fd w s ff f h o
]
