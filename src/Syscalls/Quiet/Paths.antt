-- ===== src/Syscalls/Quiet/Paths.antt =====
-- The handlers of paths are quiet.
use libtux.Base.{ℕ, ◌==◌, refl, ◌∙◌, arith, ℤ, not, ◌&&◌, ◌||◌, Bool-cases, inl, inr}
use libtux.World.{Ptr, World}
use libtux.Types.{at_removedir, has, at_empty_path}
use libtux.AddrSpace.Access.{procbuf}
use libtux.AddrSpace.Paths.{procpath-same}
use libtux.Host.{host_fd, dir_fd}
use libtux.Host.Stat.{host_fstatat, host_fstat, copystat}
use libtux.Host.Path.{
  host_truncate, in_dir, host_fchownat, host_fchmodat, host_unlinkat, host_faccessat2, host_mkdirat,
  host_renameat2, host_readlinkat, host_getpath,
}
use libtux.File.{filestat}
use libtux.Syscalls.Cwd.{sys_getcwd}
use libtux.Fd.Refs.{IsSound}
use libtux.Fd.Ready.{IsLive}
use libtux.Syscalls.File.{no_dir, neg_errno}
use libtux.Syscalls.File.Lookup.{Located, getfdir-Located}
use libtux.Syscalls.File.Paths.{
  or_errno, absolute, at_cwd, sys_readlinkat, sys_newfstatat, sys_truncate, sys_chown, sys_chmod,
  sys_unlinkat, sys_renameat, sys_faccessat2, sys_mkdirat,
}
use libtux.Syscalls.Quiet.{
  Quiet, SameFiles, Quiet-after, with_file-Quiet, with_dir-Quiet, or_fault-Quiet, or_no_path-Quiet,
}

module _ (w : World) (s : IsSound w) (live : IsLive w w.proc.cwd_file) where
  pub sys_mkdirat-Quiet : (dirfd : ℤ) (pathp mode : ℕ) → Quiet w (sys_mkdirat dirfd pathp mode w)
  unfolding sys_mkdirat host_mkdirat in_dir dir_fd host_fd
  sys_mkdirat-Quiet dirfd pathp mode =
      with_dir-Quiet w s dirfd _ live
        λ dir v same there. or_no_path-Quiet w v pathp _ same λ path. ground (arith, same, there)

  pub sys_faccessat2-Quiet :
      (dirfd : ℤ) (pathp mode flags : ℕ) → Quiet w (sys_faccessat2 dirfd pathp mode flags w)
  unfolding sys_faccessat2 host_faccessat2 in_dir dir_fd host_fd
  sys_faccessat2-Quiet dirfd pathp mode flags = with_dir-Quiet w s dirfd _ live λ dir v same there.
      elim (Bool-cases (flags == 0)) [
        | inr e ↦ rw e same
        | inl e ↦ rw e (or_no_path-Quiet w v pathp _ same λ path. ground (arith, same, there))
      ]

  pub sys_unlinkat-Quiet :
      (dirfd : ℤ) (pathp flags : ℕ) → Quiet w (sys_unlinkat dirfd pathp flags w)
  unfolding sys_unlinkat or_errno host_unlinkat in_dir dir_fd host_fd neg_errno
  sys_unlinkat-Quiet dirfd pathp flags = with_dir-Quiet w s dirfd _ live λ dir v same there.
      elim (Bool-cases (not (flags == 0) && not (flags == at_removedir))) [
        | inl e ↦ rw e same
        | inr e ↦ rw e (or_no_path-Quiet w v pathp _ same λ path. ground (arith, same, there))
      ]

  pub sys_chown-Quiet : (pathp owner group : ℕ) → Quiet w (sys_chown pathp owner group w)
  unfolding sys_chown at_cwd host_fchownat in_dir dir_fd host_fd
  sys_chown-Quiet pathp owner group =
      or_no_path-Quiet w w pathp _ (refl, refl, refl, refl) λ path. ground (arith, live)

  pub sys_chmod-Quiet : (pathp mode : ℕ) → Quiet w (sys_chmod pathp mode w)
  unfolding sys_chmod at_cwd host_fchmodat in_dir dir_fd host_fd
  sys_chmod-Quiet pathp mode =
      or_no_path-Quiet w w pathp _ (refl, refl, refl, refl) λ path. ground (arith, live)

  pub sys_truncate-Quiet :
      (scratch : Ptr) (pathp : ℕ) (length : ℤ) → Quiet w (sys_truncate scratch pathp length w)
  unfolding sys_truncate absolute host_getpath host_truncate host_fd
  sys_truncate-Quiet scratch pathp length =
      or_no_path-Quiet w w pathp _ (refl, refl, refl, refl) λ path. ground (arith, live)

  pub sys_newfstatat-Quiet :
      (dirfd : ℤ) (pathp statbufp flags : ℕ) → Quiet w (sys_newfstatat dirfd pathp statbufp flags w)
  unfolding sys_newfstatat filestat host_fstat host_fstatat copystat dir_fd host_fd
  sys_newfstatat-Quiet dirfd pathp statbufp flags =
      or_fault-Quiet w w statbufp _ _ _ (refl, refl, refl, refl)
        λ stat. elim (Bool-cases (has flags at_empty_path)) [
          | inl e ↦ rw e (with_file-Quiet w s dirfd _ λ f there ops. ground (arith, there, ops))
          | inr e ↦ rw e (
              or_no_path-Quiet w w pathp _ (refl, refl, refl, refl)
                λ path.
                  with_dir-Quiet w s dirfd _ live λ dir v same there. ground (arith, same, there))
        ]

  pub sys_readlinkat-Quiet :
      (dirfd : ℤ) (pathp bufp size : ℕ) → Quiet w (sys_readlinkat dirfd pathp bufp size w)
  unfolding sys_readlinkat or_errno host_readlinkat dir_fd host_fd neg_errno procbuf
  sys_readlinkat-Quiet dirfd pathp bufp size = with_dir-Quiet w s dirfd _ live λ dir v same there.
      let (found, e) = procpath-same pathp v in rw e (ground (arith, same, there))

  pub sys_renameat-Quiet :
      (olddir : ℤ) (oldpathp : ℕ) (newdir : ℤ) (newpathp : ℕ)
      → Quiet w (sys_renameat olddir oldpathp newdir newpathp w)
  unfolding sys_renameat host_renameat2 dir_fd host_fd
  sys_renameat-Quiet olddir oldpathp newdir newpathp =
      Quiet-after w (Located w) _ _ (getfdir-Located olddir w s live) λ oldf v l.
        Quiet-after w (Located v) _ _
          (getfdir-Located newdir v l.sound (rw (l.same_proc, l.same_hosts) live))
          λ newf u l'.
            let same : SameFiles w u = (
              l'.same_proc ∙ l.same_proc,
              l'.same_files ∙ l.same_files,
              l'.same_hosts ∙ l.same_hosts,
              l'.same_next ∙ l.same_next,
            ) in
            let old : IsLive u oldf = rw l'.same_hosts l.live in
            elim (Bool-cases (no_dir olddir oldf || no_dir newdir newf)) [
              | inl e ↦ rw e same
              | inr e ↦ rw e (
                  or_no_path-Quiet w u oldpathp _ same λ oldpath.
                    or_no_path-Quiet w u newpathp _ same
                      λ newpath. ground (arith, same, old, l'.live))
            ]

  pub sys_getcwd-Quiet : (bufp size : ℕ) → Quiet w (sys_getcwd bufp size w)
  unfolding sys_getcwd procbuf host_getpath host_fd
  sys_getcwd-Quiet bufp size = ground (arith, live)
