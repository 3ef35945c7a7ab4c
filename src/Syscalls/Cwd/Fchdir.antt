-- ===== src/Syscalls/Cwd/Fchdir.antt =====
-- sys_fchdir: the working directory becomes that of a descriptor.
use libtux.Base.{
  ◌+◌, ◌%◌, ◌<◌, ◌≡◌, ◌≢◌, ◌==◌, ◌⊎◌, inl, inr, refl, true, false, some, arith, ℤ, pos, negsuc,
  Bool-cases, sym, ◌∙◌, ap, count-pos, length, ltb,
}
use libtux.World.{Ptr, null, Call, HostFile, FdFile, Proc, World, ok, put}
use libtux.World.Total.{Holds}
use libtux.Types.{err, Errno}
use libtux.Host.{host_fd}
use libtux.Host.Stat.{host_isdir}
use libtux.Fd.{nofile, size_mod, slot, fdget, fdhas_x, get_fd_file}
use libtux.Fd.Refs.{IsSound, IsCounted-put, holders, holders_small}
use libtux.Fd.Release.{held}
use libtux.Fd.View.{IsOpen, resolve}
use libtux.Syscalls.Cwd.{leave_cwd, sys_fchdir}
use libtux.Syscalls.Cwd.Leave.{HasCwd, leave_cwd-Left, without_cwd}
use libtux.Syscalls.File.Refine.{called}
use libtux.Syscalls.File.Lookup.{is_dir}

-- The state with the FDFile at `ff` as the working directory, and one reference more to it.
abbrev moved : Ptr → FdFile → Ptr → World → World
moved ff g file u = record u {
  fd_files = put u.fd_files ff (some (record g { refs = (g.refs + 1) % size_mod }));
  proc = record u.proc { cwd_fd = ff; cwd_file = file };
}

-- The descriptor is not open, or its file is no directory by the host's fstat, and the process stays as
-- it was; or the process has the descriptor's directory for its own.
abbrev pub FchdirResult : World → ℤ → ℤ → World → Type 0
FchdirResult w fd r v =
    IsSound v
    × HasCwd v
    × (((slot w.proc.files fd ≡ null) × (r ≡ err Errno.ebadf) × (v.proc ≡ w.proc))
        ⊎ ((ff : Ptr) × (f : FdFile) × (h : HostFile) × IsOpen w fd ff f h
            × (((is_dir (w.oracle w.log (Call.fstat h.fd)) ≡ false)
                  × (r ≡ err Errno.enotdir)
                  × (v.proc ≡ w.proc))
                ⊎ ((is_dir (w.oracle w.log (Call.fstat h.fd)) ≡ true)
                    × (r ≡ pos 0)
                    × (v.proc ≡ record w.proc { cwd_fd = ff; cwd_file = f.dev.file })))))

-- A file that a descriptor names is held without the working directory, too.
still_held :
    (w : World) (fd : ℤ)
    → length w.proc.files ≡ nofile
    → slot w.proc.files fd ≢ null
    → 0 < holders (without_cwd w.proc) (slot w.proc.files fd)
still_held w (negsuc n) size nz = absurd (nz refl)
still_held w (pos n) size nz = elim (Bool-cases (ltb n nofile)) [
  | inr out ↦ absurd (ground arith)
  | inl lt ↦ rw lt (omega (arith, count-pos w.proc.files n (ground arith)))
]

module _ (w : World) (fd : ℤ) (ff : Ptr) (f : FdFile) (h : HostFile) (o : IsOpen w fd ff f h) where
  fchdir_file :
      is_dir (w.oracle w.log (Call.fstat h.fd)) ≡ false
      → sys_fchdir fd w ≡ ok (err Errno.enotdir) (called w (Call.fstat h.fd))
  unfolding sys_fchdir fdget fdhas_x get_fd_file host_isdir host_fd
  fchdir_file file = ground (arith, o.at, o.not_null, o.file, o.ops, o.device)

  fchdir_dir :
      (u : World) (g : FdFile)
      → is_dir (w.oracle w.log (Call.fstat h.fd)) ≡ true
      → leave_cwd (called w (Call.fstat h.fd)) ≡ ok tt u
      → u.fd_files ff ≡ some g
      → sys_fchdir fd w ≡ ok (pos 0) (moved ff g f.dev.file u)
  unfolding sys_fchdir fdget fdhas_x get_fd_file host_isdir host_fd
  fchdir_dir u g dir e at = ground (arith, o.at, o.not_null, o.file, o.ops, o.device)

  moved-IsSound :
      (u : World) (g : FdFile)
      → IsSound u
      → u.proc.cwd_fd ≡ null
      → u.fd_files ff ≡ some g
      → IsSound (moved ff g f.dev.file u)
  moved-IsSound u g s no_cwd at = record {
    size = s.size;
    refs =
        IsCounted-put s.refs ff g (holders (moved ff g f.dev.file u).proc) ((g.refs + 1) % size_mod)
          at
          (ground (arith, s.refs.counted ff o.not_null, holders_small u.proc ff s.size, o.not_null))
          (λ p nz ne. ground arith);
    keeps = λ p g' e.
        ground (arith, s.keeps p g', s.refs.counted ff o.not_null, holders_small u.proc ff s.size);
  }

  moved-HasCwd :
      (u : World) (g : FdFile) → g.dev.file ≡ f.dev.file → HasCwd (moved ff g f.dev.file u)
  moved-HasCwd u g same = record {
    held_by = λ g' e. ground arith;
    own = λ z. absurd (o.not_null z);
  }

  -- What becomes of a directory that the descriptor names.
  fchdir_open : IsSound w → HasCwd w → Holds (FchdirResult w fd) (sys_fchdir fd w)
  fchdir_open s c =
      let v : World = called w (Call.fstat h.fd) in
      let sv : IsSound v = record { size = s.size; refs = s.refs; keeps = s.keeps } in
      let cv : HasCwd v = record { held_by = c.held_by; own = c.own } in
      let used : slot w.proc.files fd ≢ null = λ z. o.not_null (sym o.at ∙ z) in
      elim (Bool-cases (is_dir (w.oracle w.log (Call.fstat h.fd)))) [
        | inr file ↦ rw (fchdir_file file) (sv, cv, inr (ff, f, h, o, inl (file, refl, refl)))
        | inl dir ↦
            let (u, e, l) = leave_cwd-Left v sv cv in
            let some_refs : 0 < holders u.proc ff =
              rw (l.same_proc, ← o.at) (still_held w fd s.size used) in
            let (g, at, _) = held u ff l.sound.refs o.not_null some_refs in
            let (f', at', same) = l.from ff g at in
            let dev : g.dev.file ≡ f.dev.file = ground (arith, same, at', o.file) in
            let moved_proc : (moved ff g f.dev.file u).proc
                ≡ record w.proc { cwd_fd = ff; cwd_file = f.dev.file } =
              ap {A = Proc} {B = Proc} (λ p. record p { cwd_fd = ff; cwd_file = f.dev.file })
                l.same_proc in
            rw (fchdir_dir u g dir e at) (
              moved-IsSound u g l.sound (ap (λ (p : Proc). p.cwd_fd) l.same_proc) at,
              moved-HasCwd u g dev,
              inr (ff, f, h, o, inr (dir, refl, moved_proc)),
            )
      ]

-- In a sound state whose working directory has its owner, sys_fchdir returns and both stay so. It
-- answers -TUX_EBADF for a descriptor that is not open, and -TUX_ENOTDIR for one whose file is no
-- directory by the host's fstat, and the process stays as it was; for a directory it answers 0,
-- and the process has the descriptor's FDFile and HostFile for its working directory.
pub sys_fchdir-FchdirResult :
    (fd : ℤ) (w : World) → IsSound w → HasCwd w → Holds (FchdirResult w fd) (sys_fchdir fd w)
unfolding sys_fchdir fdget fdhas_x
sys_fchdir-FchdirResult fd w s c = elim (resolve fd w s) [
  | inl (free, view) ↦
      let z : (slot w.proc.files fd == null) ≡ true = ground (arith, free) in
      rw z (s, c, inl (free, refl, refl))
  | inr (ff, f, h, o) ↦ fchdir_open w fd ff f h o s c
]
