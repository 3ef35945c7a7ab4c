-- ===== src/Syscalls.antt =====
-- src/syscalls: the handlers of the guest's system calls.
pub mod Mem
pub mod Brk
pub mod File
pub mod Cwd
pub mod Info
pub mod Quiet
pub mod Edges
use libtux.Base.{ℕ, ◌==◌, if◌then◌else◌, Option, none, some, ℤ}
use libtux.World.{Ptr, null, FdFile, FilePath, Cmd, ◌>>=◌, pure}
use libtux.Types.{err, Errno}
use libtux.Fd.{fdget, get_fd_file}

-- `f = fdget(…); if (!f) return -TUX_EBADF;`, and the fields of what it points to
unfoldable pub with_file : ℤ → (FdFile → Cmd ℤ) → Cmd ℤ
with_file fd body = do
  ff ← fdget fd
  if ff == null then pure (err Errno.ebadf) else get_fd_file ff >>= body

-- A pointer that was checked: -TUX_EFAULT if it is NULL.
unfoldable pub or_fault : Cmd Ptr → (Ptr → Cmd ℤ) → Cmd ℤ
or_fault buf body = do p ← buf; if p == null then pure (err Errno.efault) else body p

-- The same for a path.
unfoldable pub or_no_path : Cmd (Option FilePath) → (FilePath → Cmd ℤ) → Cmd ℤ
or_no_path path body = do
  found ← path
  elim found [ none ↦ pure (err Errno.efault) | some p ↦ body p ]
