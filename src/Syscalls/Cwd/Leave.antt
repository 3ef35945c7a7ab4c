-- ===== src/Syscalls/Cwd/Leave.antt =====
-- Who has the working directory, and how it is given back before another is set.
use libtux.Base.{
  ℕ, ◌<◌, ◌≡◌, ◌≢◌, ◌==◌, ◌⊎◌, inl, inr, refl, none, some, arith, is_neg, if◌then◌else◌, Bool-cases,
  Option-cases, sym, ◌∙◌, ◌∷◌, ap,
}
use libtux.World.{Ptr, null, Call, HostFile, FdFile, Proc, World, ok, put}
use libtux.Host.{host_fd}
use libtux.Host.File.{host_close}
use libtux.Fd.{size_mod, fdrelease}
use libtux.Fd.Refs.{IsSound, IsCounted-eq, holders, holders_small, fewer}
use libtux.Fd.Release.{Releases, Releases-Keeps, fdrelease-Counts, held}
use libtux.Fd.Table.{Releases-proc}
use libtux.Fd.Ready.{IsLive, Unowned}
use libtux.Syscalls.Cwd.{leave_cwd}

-- The working directory's file belongs to the FDFile that the process holds for it, or, with no
-- such FDFile, to the process alone.
pub record HasCwd (w : World) : Type 0 where
  pub held_by : (f : FdFile) → w.fd_files w.proc.cwd_fd ≡ some f → f.dev.file ≡ w.proc.cwd_file
  pub own :
      w.proc.cwd_fd ≡ null
      → (w.proc.cwd_file ≡ null)
        ⊎ ((w.host_files w.proc.cwd_file ≢ none) × Unowned w.fd_files w.proc.cwd_file)

-- A process that holds an FDFile for its working directory has it.
pub cwd_held : (w : World) → w.proc.cwd_fd ≢ null → 0 < holders w.proc w.proc.cwd_fd
cwd_held w n = ground arith

-- So the file of the working directory is there.
pub HasCwd-IsLive : (w : World) → IsSound w → HasCwd w → IsLive w w.proc.cwd_file
HasCwd-IsLive w s h = elim (Bool-cases (w.proc.cwd_fd == null)) [
  | inl e ↦ elim (h.own (ground arith)) [ inl z ↦ inl z | inr (live, _) ↦ inr live ]
  | inr e ↦
      let n : w.proc.cwd_fd ≢ null = ground arith in
      let (f, at, refs) = held w w.proc.cwd_fd s.refs n (cwd_held w n) in
      inr (rw (← h.held_by f at) (s.refs.backed w.proc.cwd_fd f at))
]

abbrev pub without_cwd : Proc → Proc
without_cwd p = record p { cwd_fd = null }

-- What is left once the working directory is given back: no file is there that was not, and none
-- but the directory's own is gone.
pub record Left (w v : World) : Type 0 where
  pub sound : IsSound v
  pub same_proc : v.proc ≡ without_cwd w.proc
  pub kept : (p : Ptr) → p ≢ w.proc.cwd_file → v.host_files p ≡ w.host_files p
  pub from :
      (p : Ptr) (g : FdFile)
      → v.fd_files p ≡ some g
      → (f : FdFile) × (w.fd_files p ≡ some f) × (g.dev ≡ f.dev)

-- A release takes away nothing but the file that it closes.
pub Releases-kept :
    (n : ℕ) (ff : Ptr) (w v : World)
    → Releases n ff w v
    → (f : FdFile) → w.fd_files ff ≡ some f
    → (p : Ptr) → p ≢ f.dev.file
    → v.host_files p ≡ w.host_files p
Releases-kept n ff w v (inl (f', e, many, same)) f at p ne = rw same refl
Releases-kept n ff w v (inr (f', h, e, live, one, same)) f at p ne = rw same (ground arith)

pub Releases-from :
    (n : ℕ) (ff : Ptr) (w v : World)
    → Releases n ff w v
    → (p : Ptr) (g : FdFile) → v.fd_files p ≡ some g
    → (f : FdFile) × (w.fd_files p ≡ some f) × (g.dev ≡ f.dev)
Releases-from n ff w v (inl (f', e, many, same)) p g at = elim (Bool-cases (ff == p)) [
  | inl z ↦ (f', ground arith, ground arith)
  | inr z ↦ (g, ground arith, refl)
]
Releases-from n ff w v (inr (f', h, e, live, one, same)) p g at = (g, ground arith, refl)

holders-without :
    (pr : Proc) (p : Ptr) → p ≢ null → fewer (holders pr) pr.cwd_fd p ≡ holders (without_cwd pr) p
holders-without pr p n = ground arith

-- The directory's FDFile is released.
released :
    (w : World)
    → IsSound w
    → HasCwd w
    → w.proc.cwd_fd ≢ null
    → (v : World) × (fdrelease w.proc.cwd_fd w ≡ ok tt v)
      × Left w (record v { proc = without_cwd v.proc })
released w s h n =
    let ff : Ptr = w.proc.cwd_fd in
    let pos_refs = cwd_held w n in
    let small : holders w.proc ff < size_mod = omega (arith, holders_small w.proc ff s.size) in
    let (v, e, c, r) = fdrelease-Counts {h = holders w.proc} ff w s.refs n pos_refs small in
    let same = Releases-proc (holders w.proc ff) ff w v r in
    let (f, at, refs) = held w ff s.refs n pos_refs in
    (
      v,
      e,
      record {
        sound = record {
          size = ground (arith, s.size, same);
          refs =
              IsCounted-eq
                (λ p nz.
                  holders-without w.proc p nz ∙ ap (λ pr. holders (without_cwd pr) p) (sym same))
                c;
          keeps = Releases-Keeps (holders w.proc) ff w v s.keeps c n r;
        };
        same_proc = ap without_cwd same;
        kept = λ p ne. Releases-kept (holders w.proc ff) ff w v r f at p (rw (h.held_by f at) ne);
        from = Releases-from (holders w.proc ff) ff w v r;
      },
    )

-- Where the process has no FDFile for its directory, nothing of its table changes.
Left-own :
    (w v : World)
    → w.proc.cwd_fd ≡ null
    → IsSound v
    → v.proc ≡ w.proc
    → ((p : Ptr) → p ≢ w.proc.cwd_file → v.host_files p ≡ w.host_files p)
    → v.fd_files ≡ w.fd_files
    → Left w v
Left-own w v e sound same kept files = record {
  sound = sound;
  same_proc = same ∙ ap {A = Ptr} {B = Proc} (λ p. record w.proc { cwd_fd = p }) e;
  kept = kept;
  from = λ p g at. (g, rw (← files) at, refl);
}

-- The state after the process's own file is closed. If the host cannot close it, it stays.
abbrev own_closed : Ptr → HostFile → World → World
own_closed p h w =
    let a = w.oracle w.log (Call.close h.fd) in
    let failed = is_neg a.ret in
    record w {
      log = Call.close h.fd ∷ w.log;
      errno = if failed then a.errno else w.errno;
      host_files = if failed then w.host_files else put w.host_files p none;
    }

leave_own :
    (w : World) (h : HostFile)
    → w.proc.cwd_fd ≡ null
    → w.proc.cwd_file ≢ null
    → w.host_files w.proc.cwd_file ≡ some h
    → leave_cwd w ≡ ok tt (own_closed w.proc.cwd_file h w)
unfolding leave_cwd host_close host_fd
leave_own w h e n live = ground arith

own_closed-IsSound :
    (w : World) (h : HostFile)
    → IsSound w
    → Unowned w.fd_files w.proc.cwd_file
    → IsSound (own_closed w.proc.cwd_file h w)
own_closed-IsSound w h s mine = record {
  size = s.size;
  refs = record {
    counted = s.refs.counted;
    backed = λ p f e. ground (arith, s.refs.backed p f, mine p f);
    owned = s.refs.owned;
    standard = s.refs.standard;
    unused = λ p le. ground (arith, s.refs.unused p);
    not_null = s.refs.not_null;
  };
  keeps = s.keeps;
}

leave_none : (w : World) → w.proc.cwd_fd ≡ null → w.proc.cwd_file ≡ null → leave_cwd w ≡ ok tt w
unfolding leave_cwd
leave_none w e z = ground arith

leave_held :
    (w v : World)
    → w.proc.cwd_fd ≢ null
    → fdrelease w.proc.cwd_fd w ≡ ok tt v
    → leave_cwd w ≡ ok tt (record v { proc = without_cwd v.proc })
unfolding leave_cwd
leave_held w v n e = ground (arith, n, e)

-- Giving the directory back returns, and takes away nothing but the directory's file.
pub leave_cwd-Left :
    (w : World) → IsSound w → HasCwd w → (v : World) × (leave_cwd w ≡ ok tt v) × Left w v
leave_cwd-Left w s h = elim (Bool-cases (w.proc.cwd_fd == null)) [
  | inr e ↦
      let n : w.proc.cwd_fd ≢ null = ground arith in
      let (v, step, left) = released w s h n in
      (record v { proc = without_cwd v.proc }, leave_held w v n step, left)
  | inl e ↦
      let no_fd : w.proc.cwd_fd ≡ null = ground arith in
      elim (Bool-cases (w.proc.cwd_file == null)) [
        | inl z ↦
            (w, leave_none w no_fd (ground arith), Left-own w w no_fd s refl (λ p n. refl) refl)
        | inr z ↦ elim (h.own no_fd) [
          | inl z' ↦ absurd (ground arith)
          | inr (live, mine) ↦ elim (Option-cases (w.host_files w.proc.cwd_file)) [
            | inl e' ↦ absurd (live e')
            | inr (g, e') ↦
                let v : World = own_closed w.proc.cwd_file g w in
                (
                  v,
                  leave_own w g no_fd (ground arith) e',
                  Left-own w v no_fd (own_closed-IsSound w g s mine) refl (λ p n. ground arith)
                      refl,
                )
          ]
        ]
      ]
]
