-- ===== src/Syscalls/File/Data.antt =====
-- Reading and writing open files: sys_file.c, and the other calls on a descriptor.
use libtux.Base.{ℕ, zero, suc, ◌+◌, ◌*◌, ◌%◌, ◌==◌, not, ◌||◌, if◌then◌else◌, ℤ, pos, is_neg, ◌+ℤ◌}
use libtux.World.{Ptr, Cmd, ◌>>=◌, ◌>>◌, pure, gets}
use libtux.World.Memory.{bytes_at, from_le}
use libtux.Types.{err, Errno, seek_set, seek_cur}
use libtux.AddrSpace.Access.{procbuf, procbufalign}
use libtux.File.{
  fileread, filewrite, filelseek, filetruncate, filechown, filechmod, filesync, filegetdents,
}
use libtux.Fd.{size_mod, fdremove}
use libtux.Syscalls.{with_file, or_fault}

unfoldable pub sys_write : ℤ → ℕ → ℕ → Cmd ℤ
sys_write fd bufp size =
    if size == 0
    then pure (pos 0)
    else with_file fd λ f.
      if not f.ops.write
      then pure (err Errno.eperm)
      else or_fault (procbuf bufp size) λ buf. filewrite f.dev buf size

unfoldable pub sys_read : ℤ → ℕ → ℕ → Cmd ℤ
sys_read fd bufp size =
    if size == 0
    then pure (pos 0)
    else with_file fd λ f.
      if not f.ops.read
      then pure (err Errno.eperm)
      else or_fault (procbuf bufp size) λ buf. fileread f.dev buf size

-- `struct IOVec`
pub record IoVec : Type 0 where
  pub base : ℕ
  pub len : ℕ

abbrev pub iovec_size : ℕ
iovec_size = 16

-- iov[i], as the guest's memory has it at that moment
unfoldable pub iovec_at : Ptr → ℕ → Cmd IoVec
iovec_at iov i = gets (λ w.
    let at = iov + iovec_size * i in
    record { base = from_le (bytes_at w.mem at 8); len = from_le (bytes_at w.mem (at + 8) 8) })

-- The loop over the vector from entry `i`, with the rounds left; the first error is the result.
unfoldable pub iov_loop : (ℕ → ℕ → Cmd ℤ) → Ptr → ℕ → ℕ → ℤ → Cmd ℤ
iov_loop call iov zero i total = pure total
iov_loop call iov (suc k) i total = do
  v ← iovec_at iov i
  n ← call v.base v.len
  if is_neg n then pure n else iov_loop call iov k (suc i) (total +ℤ n)

unfoldable pub sys_writev : ℤ → ℕ → ℕ → Cmd ℤ
sys_writev fd iovp iovcnt =
    or_fault (procbufalign iovp (iovcnt * iovec_size % size_mod) 8)
      λ iov. iov_loop (sys_write fd) iov iovcnt 0 (pos 0)

unfoldable pub sys_readv : ℤ → ℕ → ℕ → Cmd ℤ
sys_readv fd iovp iovcnt =
    or_fault (procbufalign iovp (iovcnt * iovec_size % size_mod) 8)
      λ iov. iov_loop (sys_read fd) iov iovcnt 0 (pos 0)

unfoldable pub sys_close : ℤ → Cmd ℤ
sys_close fd = do removed ← fdremove fd; pure (if removed then pos 0 else err Errno.ebadf)

-- The file's position is asked for, moved, and set back.
unfoldable pub sys_pread64 : ℤ → ℕ → ℕ → ℤ → Cmd ℤ
sys_pread64 fd bufp size offset = with_file fd λ f.
    if not f.ops.read || not f.ops.lseek
    then pure (err Errno.eperm)
    else or_fault (procbuf bufp size) λ buf. do
      orig ← filelseek f.dev (pos 0) seek_cur
      filelseek f.dev offset seek_set
      n ← fileread f.dev buf size
      filelseek f.dev orig seek_set
      pure n

unfoldable pub sys_getdents64 : ℤ → ℕ → ℕ → Cmd ℤ
sys_getdents64 fd dirp size = with_file fd λ f.
    if not f.ops.getdents
    then pure (err Errno.eperm)
    else or_fault (procbufalign dirp size 8) λ buf. filegetdents f.dev buf size

unfoldable pub sys_lseek : ℤ → ℤ → ℕ → Cmd ℤ
sys_lseek fd offset whence =
    with_file fd
      λ f. if not f.ops.lseek then pure (err Errno.eperm) else filelseek f.dev offset whence

unfoldable pub sys_ftruncate : ℤ → ℤ → Cmd ℤ
sys_ftruncate fd length =
    with_file fd
      λ f. if not f.ops.truncate then pure (err Errno.eperm) else filetruncate f.dev length

unfoldable pub sys_fchown : ℤ → ℕ → ℕ → Cmd ℤ
sys_fchown fd owner group =
    with_file fd
      λ f. if not f.ops.chown then pure (err Errno.eperm) else filechown f.dev owner group

unfoldable pub sys_fchmod : ℤ → ℕ → Cmd ℤ
sys_fchmod fd mode =
    with_file fd λ f. if not f.ops.chmod then pure (err Errno.eperm) else filechmod f.dev mode

unfoldable pub sys_fsync : ℤ → Cmd ℤ
sys_fsync fd = with_file fd λ f. if not f.ops.sync then pure (err Errno.eperm) else filesync f.dev
