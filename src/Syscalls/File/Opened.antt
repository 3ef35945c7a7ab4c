-- ===== src/Syscalls/File/Opened.antt =====
-- What sys_openat does to the descriptors.
use libtux.Base.{
  ◌∙◌, ℕ, ◌<◌, ◌≡◌, ◌≢◌, ◌==◌, ◌⊎◌, inl, inr, refl, true, false, Option, none, some, get_or, set, ℤ,
  pos, int_eq, if◌then◌else◌, arith, Bool-cases, subst, ap, sym,
}
use libtux.World.{Ptr, null, FdFile, FilePath, World, ok, put, pure, Proc, Cmd, ◌>>=◌}
use libtux.World.Total.{Holds, Holds-ran, Holds-weaken}
use libtux.Types.{err, Errno, at_fdcwd}
use libtux.AddrSpace.Access.{procpath}
use libtux.AddrSpace.Paths.{procpath-same}
use libtux.File.{filenew}
use libtux.Fd.{nofile}
use libtux.Fd.Refs.{IsSound, holders, refs_of}
use libtux.Fd.Alloc.{IsFirstFree}
use libtux.Fd.Ready.{IsLive, IsReady}
use libtux.Fd.Growth.{New, New-same}
use libtux.Fd.Making.{CanOpen, Made, filenew-Made}
use libtux.Syscalls.{or_no_path}
use libtux.Syscalls.File.{no_dir, getfdir}
use libtux.Syscalls.File.Open.{install, sys_openat}
use libtux.Syscalls.File.Install.{install_lem}
use libtux.Syscalls.File.Lookup.{Located, getfdir-Located}

-- What becomes of the file at `ff` that filenew gave: NULL is -TUX_ENOENT, and a file that was not
-- there before gets the least free descriptor, if there is one.
abbrev pub Placed : Proc → (Ptr → Option FdFile) → Ptr → ℤ → World → Type 0
Placed p fds ff r v =
    ((ff ≡ null) × (r ≡ err Errno.enoent) × IsSound v × (v.proc ≡ p))
    ⊎ ((ff ≢ null) × ((i : ℕ) → i < nofile → get_or p.files i null ≢ null) × (r ≡ err Errno.emfile))
    ⊎ ((ff ≢ null)
        × (fds ff ≡ none)
        × (i : ℕ) × (r ≡ pos i)
        × IsFirstFree p.files 0 nofile i
        × IsSound v
        × (v.proc ≡ record p { files = set p.files i ff }))

-- The directory that getfdir gave is used, or there is none.
abbrev pub NoDir : ℤ → Ptr → Type 0
NoDir dirfd dir = (int_eq dirfd at_fdcwd ≡ false) × (dir ≡ null)

abbrev pub HasDir : ℤ → Ptr → Type 0
HasDir dirfd dir = (int_eq dirfd at_fdcwd ≡ true) ⊎ (dir ≢ null)

-- Why the call answers what it does, and that no file but a new one has come.
abbrev pub OpenResult : World → ℤ → ℕ → ℕ → ℕ → ℤ → World → Type 0
OpenResult w dirfd pathp flags mode r v =
    New w v
    × (dir : Ptr) × (u : World) × (getfdir dirfd w ≡ ok dir u)
    × ((NoDir dirfd dir × (r ≡ err Errno.ebadf) × IsSound v × (v.proc ≡ w.proc))
        ⊎ (HasDir dirfd dir
            × (procpath pathp u ≡ ok none u)
            × (r ≡ err Errno.efault)
            × IsSound v
            × (v.proc ≡ w.proc))
        ⊎ (HasDir dirfd dir
            × (path : FilePath) × (procpath pathp u ≡ ok (some path) u)
            × (ff : Ptr) × (x : World) × (filenew dir path flags mode u ≡ ok ff x)
            × Placed w.proc w.fd_files ff r v))

-- A count that changes leaves the devices as they are.
New-put :
    (w v : World) (ff : Ptr) (f : FdFile) (n : ℕ) (p : Proc)
    → New w v
    → v.fd_files ff ≡ some f
    → New w (record v { fd_files = put v.fd_files ff (some (record f { refs = n })); proc = p })
New-put w v ff f n p new at = record {
  kept = new.kept;
  from = λ q g e. elim (Bool-cases (ff == q)) [
    | inr other ↦ new.from q g (ground arith)
    | inl same ↦
        let q_ff : q ≡ ff = ground arith in
        let dev : g.dev ≡ f.dev = ground arith in
        elim (new.from ff f at) [
          | inl (f', e', d) ↦ inl (f', rw q_ff e', dev ∙ d)
          | inr (e', fresh) ↦ inr (rw q_ff e', rw dev fresh)
        ]
  ];
}

has_dir : (dirfd : ℤ) (dir : Ptr) → no_dir dirfd dir ≡ false → HasDir dirfd dir
has_dir dirfd dir e = ground (arith, e)

-- A file that no descriptor has is a new one.
ready-new :
    (w v : World) (ff : Ptr) (f : FdFile)
    → IsSound w
    → v.proc ≡ w.proc
    → IsReady v ff f
    → New w v
    → w.fd_files ff ≡ none
ready-new w v ff f s same r new =
    let unheld : holders w.proc ff ≡ 0 =
      subst (λ p. holders p ff ≡ 0) same
        (sym (r.refs.counted ff r.not_null) ∙ ap refs_of r.file ∙ r.unheld) in
    elim (new.from ff f r.file) [
      | inr (e, fresh) ↦ e
      | inl (f', e, d) ↦
          absurd (ground (arith, unheld, s.keeps ff f' e, s.refs.counted ff r.not_null, e))
    ]

-- The step from the file to its descriptor.
installed :
    (w v : World) (ff : Ptr)
    → IsSound w
    → Made w ff v
    → New w v
    → Holds
        (λ r x. Placed w.proc w.fd_files ff r x × New w x)
        ((if ff == null then pure (err Errno.enoent) else install ff) v)
installed w v ff s (same, inl (e, sound)) new = rw e (inl (refl, refl, sound, same), new)
installed w v ff s (same, inr (nz, f, r)) new =
    let n : (ff == null) ≡ false = ground (arith, nz) in
    elim (install_lem v ff f r) [
      | inl (i, first, e, sound) ↦
          rw (n, e)
            (
              inr (
                  inr (
                    nz,
                    ready-new w v ff f s same r new,
                    i,
                    refl,
                    subst (λ p. IsFirstFree p.files 0 nofile i) same first,
                    sound,
                    ap {A = Proc} (λ p. record p { files = set p.files i ff }) same,
                  )),
              New-put w v ff f _ _ new r.file,
            )
      | inr (full, e) ↦
          rw (n, e)
            (
              inr (
                  inl (
                    nz,
                    subst (λ p. (j : ℕ) → j < nofile → get_or p.files j null ≢ null) same full,
                    refl,
                  )),
              New-put w v ff f _ _ new r.file,
            )
    ]

module _ (dirfd : ℤ) (pathp flags mode : ℕ) (w : World) (s : IsSound w) (dir : Ptr) (u : World)
    (ran : getfdir dirfd w ≡ ok dir u) (l : Located w dir u) (has : HasDir dirfd dir) where
  -- Looking up the directory before makes no difference.
  New-from : (v : World) → New u v → New w v
  New-from v new = record {
    kept = rw (← l.same_hosts) new.kept;
    from = rw (← l.same_hosts, ← l.same_files) new.from;
  }

  -- From the path on.
  opened :
      (found : Option FilePath)
      → procpath pathp u ≡ ok found u
      → CanOpen u
      → Holds (OpenResult w dirfd pathp flags mode) (
          (elim found as (λ x. Cmd ℤ) [
            | none ↦ pure (err Errno.efault)
            | some path ↦ filenew dir path flags mode >>= λ f.
                if f == null then pure (err Errno.enoent) else install f
          ])
            u)
  opened none at can = (
    New-same w u l.same_hosts l.same_files,
    dir,
    u,
    ran,
    inr (inl (has, at, refl, l.sound, l.same_proc)),
  )
  opened (some path) at can =
      let (ff, x, made, (m, new)) =
        Holds-ran (λ ff v. Made u ff v × New u v) (filenew dir path flags mode u)
          (filenew-Made dir path flags mode u l.sound l.live can) in
      rw made (
        Holds-weaken (λ r v. Placed u.proc u.fd_files ff r v × New u v)
          (OpenResult w dirfd pathp flags mode) _ (installed u x ff l.sound m new)
          λ r v (placed, new'). (
            New-from v new',
            dir,
            u,
            ran,
            inr (
                inr (
                  has,
                  path,
                  at,
                  ff,
                  x,
                  made,
                  subst (λ p. Placed p w.fd_files ff r v) l.same_proc
                      (subst (λ fds. Placed u.proc fds ff r v) l.same_files placed),
                )),
          ))

-- In a sound state, with a working directory that is there or NULL and memory for the embedder's
-- opener, sys_openat returns. If getfdir finds no directory for a descriptor the answer is
-- -TUX_EBADF, if procpath refuses the path -TUX_EFAULT, if filenew gives no file -TUX_ENOENT, and
-- the process stays as it was; else the file is one that was not there before and gets the least
-- free descriptor, which is the answer, or none is free and the answer is -TUX_EMFILE. But for
-- that the counts are right, and no file but a new one has come.
pub sys_openat-OpenResult :
    (dirfd : ℤ) (pathp flags mode : ℕ) (w : World)
    → IsSound w
    → IsLive w w.proc.cwd_file
    → CanOpen w
    → Holds (OpenResult w dirfd pathp flags mode) (sys_openat dirfd pathp flags mode w)
unfolding sys_openat or_no_path
sys_openat-OpenResult dirfd pathp flags mode w s live can =
    let (dir, u, ran, l) =
      Holds-ran (Located w) (getfdir dirfd w) (getfdir-Located dirfd w s live) in
    let can' : CanOpen u = rw (l.same_oracle, l.same_proc) can in
    let (found, at) = procpath-same pathp u in
    elim (Bool-cases (no_dir dirfd dir)) [
      | inl e ↦
          rw (ran, e)
            (
              New-same w u l.same_hosts l.same_files,
              dir,
              u,
              ran,
              inl ((ground (arith, e), ground (arith, e)), refl, l.sound, l.same_proc),
            )
      | inr e ↦
          rw (ran, e, at)
            (opened dirfd pathp flags mode w s dir u ran l (has_dir dirfd dir e) found at can')
    ]
