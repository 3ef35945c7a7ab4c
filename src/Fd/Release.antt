-- ===== src/Fd/Release.antt =====
-- fdrelease: giving up a reference.
use libtux.Base.{
  ℕ, ◌+◌, ◌-◌, ◌%◌, false, ◌<◌, ◌≡◌, ◌≢◌, ◌==◌, refl, Option, none, some, true, is_neg,
  if◌then◌else◌, arith, Option-cases, Bool-cases, inl, inr, ◌∷◌, subst, sym, ◌⊎◌,
}
use mathlib.Core.Path.{fun_ext}
use libtux.World.{Ptr, null, Call, HostFile, FdFile, World, ok, put}
use libtux.File.{fileclose}
use libtux.Fd.{get_fd_file, close_and_free, unlock_refs, fdrelease, size_mod}
use libtux.Fd.Refs.{IsCounted, Counts, Keeps, IsCounted-put, IsCounted-free, IsCounted-close, fewer}

-- The state with another count of an FDFile.
abbrev pub counted : Ptr → FdFile → ℕ → World → World
counted ff f n w = record w { fd_files = put w.fd_files ff (some (record f { refs = n })) }

-- The state after a release that is not the last.
abbrev pub dropped : Ptr → FdFile → World → World
dropped ff f w = counted ff f (f.refs - 1) w

-- The state after the last release: the device is closed, if it can be, and the FDFile is freed, and
-- then its mutex is unlocked.
abbrev pub closed : Ptr → FdFile → HostFile → World → World
closed ff f h w =
    let a = w.oracle w.log (Call.close h.fd) in
    let failed = is_neg a.ret in
    record w {
      log = Call.close h.fd ∷ w.log;
      errno = if failed then a.errno else w.errno;
      host_files = if failed then w.host_files else put w.host_files f.dev.file none;
      fd_files = put (put w.fd_files ff (some (record f { refs = 0 }))) ff none;
      stale = ff ∷ w.stale;
    }

-- The mutex of an FDFile that is still there is unlocked in time.
pub unlock_held :
    (ff : Ptr) (v : World) (g : FdFile) → v.fd_files ff ≡ some g → unlock_refs ff v ≡ ok tt v
unfolding unlock_refs
unlock_held ff v g e = ground (arith, e)

-- A release after which the count is not 0.
pub fdrelease_stays :
    (ff : Ptr) (f : FdFile) (n : ℕ) (w : World)
    → w.fd_files ff ≡ some f
    → (f.refs + size_mod - 1) % size_mod ≡ n
    → (n == 0) ≡ false
    → fdrelease ff w ≡ ok tt (counted ff f n w)
unfolding fdrelease
fdrelease_stays ff f n w e count some_left =
    let found : get_fd_file ff w ≡ ok f w = unfold get_fd_file in ground (arith, e) in
    rw found (
      rw (count, some_left)
        (unlock_held ff (counted ff f n w) (record f { refs = n }) (ground arith)))

pub fdrelease_shared :
    (ff : Ptr) (f : FdFile) (w : World)
    → w.fd_files ff ≡ some f
    → 1 < f.refs
    → f.refs < size_mod
    → fdrelease ff w ≡ ok tt (dropped ff f w)
fdrelease_shared ff f w e more small =
    fdrelease_stays ff f (f.refs - 1) w e (omega arith) (ground arith)

pub fdrelease_last :
    (ff : Ptr) (f : FdFile) (h : HostFile) (w : World)
    → w.fd_files ff ≡ some f
    → f.refs ≡ 1
    → f.ops.close ≡ true
    → w.host_files f.dev.file ≡ some h
    → fdrelease ff w ≡ ok tt (closed ff f h w)
unfolding fdrelease get_fd_file close_and_free unlock_refs fileclose
fdrelease_last ff f h w e one can live = ground arith

-- Where an FDFile is counted, it is there.
pub held :
    {h : Ptr → ℕ} (w : World) (ff : Ptr)
    → Counts h w
    → ff ≢ null
    → 0 < h ff
    → (f : FdFile) × (w.fd_files ff ≡ some f) × (f.refs ≡ h ff)
held w ff c n some_refs = elim (Option-cases (w.fd_files ff)) [
  | inl e ↦ absurd (ground (arith, c.counted ff n))
  | inr (f, e) ↦ (f, e, ground (arith, c.counted ff n))
]

-- What a release does: the last one closes the descriptor and frees the FDFile, any other only
-- counts down.
abbrev pub Releases : ℕ → Ptr → World → World → Type 0
Releases n ff w v =
    ((f : FdFile) × (w.fd_files ff ≡ some f) × (1 < n) × (v ≡ dropped ff f w))
    ⊎ ((f : FdFile) × (h : HostFile) × (w.fd_files ff ≡ some f)
        × (w.host_files f.dev.file ≡ some h)
        × (n ≡ 1)
        × (v ≡ closed ff f h w))

-- The descriptor of a counted FDFile is there too.
pub held_open :
    {h : Ptr → ℕ} (w : World) (ff : Ptr) (f : FdFile)
    → Counts h w
    → w.fd_files ff ≡ some f
    → (g : HostFile) × (w.host_files f.dev.file ≡ some g)
held_open w ff f c e = elim (Option-cases (w.host_files f.dev.file)) [
  | inl none_there ↦ absurd (c.backed ff f e none_there)
  | inr (g, there) ↦ (g, there)
]

-- Freeing twice over is freeing.
put_twice :
    {A : Type 0} (f : Ptr → Option A) (p : Ptr) (a b : Option A) → put (put f p a) p b ≡ put f p b
put_twice f p a b = fun_ext λ q. ground arith

closed-Counts :
    {h : Ptr → ℕ} (ff : Ptr) (f : FdFile) (g : HostFile) (w : World)
    → Counts h w
    → w.fd_files ff ≡ some f
    → h ff ≡ 1
    → Counts (fewer h ff) (closed ff f g w)
closed-Counts {h} ff f g w c e one =
    subst (λ fds. IsCounted (fewer h ff) fds (closed ff f g w).host_files w.next)
      (sym (put_twice w.fd_files ff (some (record f { refs = 0 })) none))
      (elim (Bool-cases (is_neg (w.oracle w.log (Call.close g.fd)).ret)) [
        | inl failed ↦
            rw failed (IsCounted-free c ff f _ e (ground arith) (λ p nz ne. ground arith))
        | inr done ↦ rw done (IsCounted-close c ff f _ e (ground arith) (λ p nz ne. ground arith))
      ])

-- fdrelease of a file that is held returns; the reference counts are right for one reference
-- fewer, and the descriptor is closed and the FDFile freed exactly if that was the last. Then, and
-- only then, the mutex in the FDFile is unlocked after it was freed.
pub fdrelease-Counts :
    {h : Ptr → ℕ} (ff : Ptr) (w : World)
    → Counts h w
    → ff ≢ null
    → 0 < h ff
    → h ff < size_mod
    → (v : World) × (fdrelease ff w ≡ ok tt v) × Counts (fewer h ff) v × Releases (h ff) ff w v
fdrelease-Counts {h} ff w c n some_refs small =
    let (f, e, refs) = held w ff c n some_refs in
    let (g, live) = held_open w ff f c e in
    elim (Bool-cases (h ff == 1)) [
      | inl one ↦ (
        closed ff f g w,
        fdrelease_last ff f g w e (ground arith) (ground (arith, c.standard ff f)) live,
        closed-Counts ff f g w c e (ground arith),
        inr (f, g, e, live, ground arith, refl),
      )
      | inr more ↦ (
        dropped ff f w,
        fdrelease_shared ff f w e (ground arith) (ground arith),
        IsCounted-put c ff f _ _ e (ground arith) (λ p nz ne. ground arith),
        inl (f, e, ground arith, refl),
      )
    ]

-- A release leaves no FDFile without a reference.
pub Releases-Keeps :
    (h : Ptr → ℕ) (ff : Ptr) (w v : World)
    → Keeps w
    → Counts (fewer h ff) v
    → ff ≢ null
    → Releases (h ff) ff w v
    → Keeps v
Releases-Keeps h ff w v k c n (inl (f, e, many, same)) p g there =
    ground (arith, k p g, c.counted ff n)
Releases-Keeps h ff w v k c n (inr (f, g', e, live, one, same)) p g there = ground (arith, k p g)
