-- ===== src/Syscalls/File.antt =====
-- src/syscalls/sys_file.c
pub mod Data
pub mod Refine
pub mod Open
pub mod Install
pub mod Closed
pub mod Opened
pub mod Lookup
pub mod Paths
use libtux.Base.{
  ℕ, ◌==◌, not, ◌&&◌, ◌||◌, Bool, if◌then◌else◌, Option, none, some, ℤ, is_neg, int_eq, neg,
}
use libtux.World.{Ptr, null, World, ok, Cmd, ◌>>=◌, pure, gets}
use libtux.Types.{at_fdcwd}
use libtux.File.{filefile}
use libtux.Fd.{fdget, get_fd_file}
use libtux.Host.Stat.{host_isdir}

-- The directory that a descriptor names, NULL if it names none; for AT_FDCWD the working
-- directory, which may be NULL too.
unfoldable pub getfdir : ℤ → Cmd Ptr
getfdir dirfd = if int_eq dirfd at_fdcwd then gets (λ w. w.proc.cwd_file) else (do
  ff ← fdget dirfd
  if ff == null then pure null else do
    f ← get_fd_file ff
    if not f.ops.file
        then pure null
        else do dir ← host_isdir (filefile f.dev); pure (if dir then filefile f.dev else null))

-- `dirfd != AT_FDCWD && !dir`
abbrev pub no_dir : ℤ → Ptr → Bool
no_dir dirfd dir = not (int_eq dirfd at_fdcwd) && (dir == null)

-- `-errno`
unfoldable pub neg_errno : Cmd ℤ
neg_errno = gets (λ w. neg w.errno)
