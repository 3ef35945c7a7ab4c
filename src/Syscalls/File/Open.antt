-- ===== src/Syscalls/File/Open.antt =====
-- Opening files: sys_openat and sys_open.
use libtux.Base.{ℕ, ◌==◌, if◌then◌else◌, ℤ, is_neg}
use libtux.World.{Ptr, null, Cmd, ◌>>=◌, ◌>>◌, pure}
use libtux.Types.{err, Errno, at_fdcwd}
use libtux.AddrSpace.Access.{procpath}
use libtux.File.{filenew}
use libtux.Fd.{fdalloc, fdassign, fdrelease, index}
use libtux.Syscalls.{or_no_path}
use libtux.Syscalls.File.{getfdir, no_dir}

-- The FDFile gets the descriptor that is free. With none free it is released, though it has no
-- reference yet.
unfoldable pub install : Ptr → Cmd ℤ
install f = do
  fd ← fdalloc
  if is_neg fd
      then (do fdrelease f; pure (err Errno.emfile))
      else (do fdassign (index fd) f; pure fd)

unfoldable pub sys_openat : ℤ → ℕ → ℕ → ℕ → Cmd ℤ
sys_openat dirfd pathp flags mode = do
  dir ← getfdir dirfd
  if no_dir dirfd dir
      then pure (err Errno.ebadf)
      else or_no_path (procpath pathp) λ path. do
        f ← filenew dir path flags mode
        if f == null then pure (err Errno.enoent) else install f

unfoldable pub sys_open : ℕ → ℕ → ℕ → Cmd ℤ
sys_open pathp flags mode = sys_openat at_fdcwd pathp flags mode
