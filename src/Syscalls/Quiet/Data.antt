-- ===== src/Syscalls/Quiet/Data.antt =====
-- The handlers of open files are quiet.
use libtux.Base.{
  ℕ, zero, suc, ◌==◌, refl, arith, ℤ, pos, is_neg, ◌+ℤ◌, ◌∙◌, ◌*◌, ◌%◌, Bool-cases, inl, inr,
}
use libtux.World.{Ptr, World, Cmd, Run, ok, aborted, fault}
use libtux.Fd.{size_mod}
use libtux.File.{
  fileread, filewrite, filelseek, filetruncate, filechown, filechmod, filesync, filegetdents,
}
use libtux.Host.{host_fd}
use libtux.Host.File.{
  host_read, host_write, host_seek, seekwhence, host_ftruncate, host_fchown, host_fchmod,
  host_fsync, host_getdents64, on_file,
}
use libtux.AddrSpace.Access.{procbuf, procbufalign}
use libtux.Fd.Refs.{IsSound}
use libtux.Syscalls.{or_fault}
use libtux.Syscalls.File.Data.{
  sys_write, sys_read, sys_writev, sys_readv, iov_loop, iovec_at, iovec_size, sys_pread64,
  sys_getdents64, sys_lseek, sys_ftruncate, sys_fchown, sys_fchmod, sys_fsync,
}
use libtux.Syscalls.Quiet.{
  Quiet, SameFiles, SameFiles-IsSound, Quiet-bind, with_file-Quiet, or_fault-Quiet,
}

module _ (w : World) (s : IsSound w) (fd : ℤ) where
  pub sys_write-Quiet : (bufp size : ℕ) → Quiet w (sys_write fd bufp size w)
  unfolding sys_write or_fault procbuf filewrite host_write host_fd
  sys_write-Quiet bufp size = elim (Bool-cases (size == 0)) [
    | inl e ↦ rw e (refl, refl, refl, refl)
    | inr e ↦ rw e (with_file-Quiet w s fd _ λ f live ops. ground (arith, live, ops))
  ]

  pub sys_read-Quiet : (bufp size : ℕ) → Quiet w (sys_read fd bufp size w)
  unfolding sys_read or_fault procbuf fileread host_read host_fd
  sys_read-Quiet bufp size = elim (Bool-cases (size == 0)) [
    | inl e ↦ rw e (refl, refl, refl, refl)
    | inr e ↦ rw e (with_file-Quiet w s fd _ λ f live ops. ground (arith, live, ops))
  ]

  pub sys_pread64-Quiet : (bufp size : ℕ) (offset : ℤ) → Quiet w (sys_pread64 fd bufp size offset w)
  unfolding sys_pread64 or_fault procbuf fileread filelseek host_read host_seek seekwhence host_fd
  sys_pread64-Quiet bufp size offset =
      with_file-Quiet w s fd _ λ f live ops. ground (arith, live, ops)

  pub sys_getdents64-Quiet : (dirp size : ℕ) → Quiet w (sys_getdents64 fd dirp size w)
  unfolding sys_getdents64 or_fault procbufalign filegetdents host_getdents64 host_fd
  sys_getdents64-Quiet dirp size = with_file-Quiet w s fd _ λ f live ops. ground (arith, live, ops)

  pub sys_lseek-Quiet : (offset : ℤ) (whence : ℕ) → Quiet w (sys_lseek fd offset whence w)
  unfolding sys_lseek filelseek host_seek seekwhence host_fd
  sys_lseek-Quiet offset whence = with_file-Quiet w s fd _ λ f live ops. ground (arith, live, ops)

  pub sys_ftruncate-Quiet : (length : ℤ) → Quiet w (sys_ftruncate fd length w)
  unfolding sys_ftruncate filetruncate host_ftruncate on_file host_fd
  sys_ftruncate-Quiet length = with_file-Quiet w s fd _ λ f live ops. ground (arith, live, ops)

  pub sys_fchown-Quiet : (owner group : ℕ) → Quiet w (sys_fchown fd owner group w)
  unfolding sys_fchown filechown host_fchown on_file host_fd
  sys_fchown-Quiet owner group = with_file-Quiet w s fd _ λ f live ops. ground (arith, live, ops)

  pub sys_fchmod-Quiet : (mode : ℕ) → Quiet w (sys_fchmod fd mode w)
  unfolding sys_fchmod filechmod host_fchmod on_file host_fd
  sys_fchmod-Quiet mode = with_file-Quiet w s fd _ λ f live ops. ground (arith, live, ops)

  pub sys_fsync-Quiet : Quiet w (sys_fsync fd w)
  unfolding sys_fsync filesync host_fsync on_file host_fd
  sys_fsync-Quiet = with_file-Quiet w s fd _ λ f live ops. ground (arith, live, ops)

-- A vector is quiet if each of its buffers is.
iov_loop-Quiet :
    (w : World) (call : ℕ → ℕ → Cmd ℤ) (iov : Ptr) (k i : ℕ) (total : ℤ) (v : World)
    → ((base len : ℕ) (u : World) → SameFiles w u → Quiet w (call base len u))
    → SameFiles w v
    → Quiet w (iov_loop call iov k i total v)
unfolding iov_loop iovec_at
iov_loop-Quiet w call iov zero i total v each same = same
iov_loop-Quiet w call iov (suc k) i total v each same =
    Quiet-bind w _ _ (each _ _ v same) λ n u same'. elim (Bool-cases (is_neg n)) [
      | inl e ↦ rw e same'
      | inr e ↦ rw e (iov_loop-Quiet w call iov k (suc i) (total +ℤ n) u each same')
    ]

-- A run that is quiet from a state with the same files is quiet.
Quiet-from : {A : Type 0} (w v : World) (r : Run A) → SameFiles w v → Quiet v r → Quiet w r
Quiet-from w v (ok a u) (e1, e2, e3, e4) (d1, d2, d3, d4) = (d1 ∙ e1, d2 ∙ e2, d3 ∙ e3, d4 ∙ e4)
Quiet-from w v aborted same h = tt
Quiet-from w v fault same h = elim h [ ]

module _ (w : World) (s : IsSound w) (fd : ℤ) (iovp iovcnt : ℕ) where
  vector-Quiet :
      (call : ℕ → ℕ → Cmd ℤ)
      → ((base len : ℕ) (u : World) → IsSound u → Quiet u (call base len u))
      → Quiet w (
          or_fault
            (procbufalign iovp (iovcnt * iovec_size % size_mod) 8)
            (λ iov. iov_loop call iov iovcnt 0 (pos 0))
            w)
  vector-Quiet call each =
      let loop : (iov : Ptr) → Quiet w (iov_loop call iov iovcnt 0 (pos 0) w) = λ iov.
        iov_loop-Quiet w call iov iovcnt 0 (pos 0) w
          (λ base len u same.
            Quiet-from w u _ same (each base len u (SameFiles-IsSound w u same s)))
          (refl, refl, refl, refl) in
      or_fault-Quiet w w iovp _ 8 _ (refl, refl, refl, refl) loop

  pub sys_writev-Quiet : Quiet w (sys_writev fd iovp iovcnt w)
  unfolding sys_writev
  sys_writev-Quiet = vector-Quiet (sys_write fd) λ base len u su. sys_write-Quiet u su fd base len

  pub sys_readv-Quiet : Quiet w (sys_readv fd iovp iovcnt w)
  unfolding sys_readv
  sys_readv-Quiet = vector-Quiet (sys_read fd) λ base len u su. sys_read-Quiet u su fd base len
