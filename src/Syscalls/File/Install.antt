-- ===== src/Syscalls/File/Install.antt =====
-- Opening a file keeps the reference counts right, as long as a descriptor is free.
use libtux.Base.{ℕ, ◌-◌, ◌<◌, ◌≡◌, ◌≢◌, ◌⊎◌, inl, inr, refl, some, get_or, arith, pos, neg, subst}
use libtux.World.{Ptr, null, FdFile, World, ok, put}
use libtux.Types.{err, Errno}
use libtux.Fd.{nofile, size_mod, fdalloc, fdassign}
use libtux.Fd.Release.{fdrelease_stays}
use libtux.Fd.Refs.{IsSound}
use libtux.Fd.Ready.{IsReady}
use libtux.Fd.Alloc.{IsFirstFree, fdalloc-Found}
use libtux.Fd.Table.{assigned, fdassign-IsSound}
use libtux.Syscalls.File.Open.{install}

-- The state after a release of a file that had no reference: its count wraps, so nothing is freed.
abbrev pub leaked : Ptr → FdFile → World → World
leaked ff f w = record w { fd_files = put w.fd_files ff (some (record f { refs = size_mod - 1 })) }

-- The file gets the least free descriptor, or with none free the call answers -TUX_EMFILE and the
-- file stays open, though nothing leads to it.
abbrev pub Installed : World → Ptr → FdFile → Type 0
Installed w ff f =
    ((i : ℕ) × IsFirstFree w.proc.files 0 nofile i
      × (install ff w ≡ ok (pos i) (assigned i ff f w))
      × IsSound (assigned i ff f w))
    ⊎ (((i : ℕ) → i < nofile → get_or w.proc.files i null ≢ null)
        × (install ff w ≡ ok (err Errno.emfile) (leaked ff f w)))

module _ (w : World) (ff : Ptr) (f : FdFile) (r : IsReady w ff f) where
  install_free :
      (i : ℕ)
      → fdalloc w ≡ ok (pos i) w
      → fdassign i ff w ≡ ok tt (assigned i ff f w)
      → install ff w ≡ ok (pos i) (assigned i ff f w)
  unfolding install
  install_free i e1 e2 = rw e1 (rw e2 refl)

  install_full : fdalloc w ≡ ok (neg 1) w → install ff w ≡ ok (err Errno.emfile) (leaked ff f w)
  unfolding install
  install_full e =
      rw e (rw (fdrelease_stays ff f (size_mod - 1) w r.file (rw r.unheld refl) refl) refl)

  -- A file that is open and that no descriptor has yet gets the least free one and its first
  -- reference, and the counts are right. With none free the answer is -TUX_EMFILE, but its count
  -- wraps to the greatest number: it is neither closed nor freed.
  pub install_lem : Installed w ff f
  install_lem =
      let (d, e, found) = fdalloc-Found w in
      elim found [
        | inl (i, same, first) ↦
            let (step, sound) =
              fdassign-IsSound i ff f w r.size r.refs r.keeps r.not_null r.file first.below
                first.free in
            inl (i, first, install_free i (subst (λ d. fdalloc w ≡ ok d w) same e) step, sound)
        | inr (same, full) ↦
            inr (
              λ i lt. full i (omega arith) lt,
              install_full (subst (λ d. fdalloc w ≡ ok d w) same e),
            )
      ]
