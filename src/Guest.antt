-- ===== src/Guest.antt =====
-- The guest as a sequence of calls: what src/sys.c hands to the handlers of sys_file.c, sys_cwd.c
-- and sys_mem.c, and what the guest does between two calls.
pub mod Good
pub mod Later
pub mod Calm
pub mod Safe
use libtux.Base.{ℕ, ℤ, pos}
use libtux.World.{Ptr, World, Cmd, ◌>>=◌, pure}
use libtux.Syscalls.File.Data.{
  sys_write, sys_read, sys_writev, sys_readv, sys_close, sys_pread64, sys_getdents64, sys_lseek,
  sys_ftruncate, sys_fchown, sys_fchmod, sys_fsync,
}
use libtux.Syscalls.File.Open.{sys_openat}
use libtux.Syscalls.File.Paths.{
  sys_readlinkat, sys_newfstatat, sys_truncate, sys_chown, sys_chmod, sys_unlinkat, sys_renameat,
  sys_faccessat2, sys_mkdirat,
}
use libtux.Syscalls.Cwd.{sys_getcwd, sys_chdir, sys_fchdir}
use libtux.Syscalls.Mem.{sys_mmap, sys_munmap, sys_mprotect}

-- A call with its arguments. `scratch` is where the handler's buffer lies on the host's stack.
pub data Request : Type 0 where
  write : (fd : ℤ) (bufp size : ℕ) → Request
  read : (fd : ℤ) (bufp size : ℕ) → Request
  writev : (fd : ℤ) (iovp iovcnt : ℕ) → Request
  readv : (fd : ℤ) (iovp iovcnt : ℕ) → Request
  pread64 : (fd : ℤ) (bufp size : ℕ) (offset : ℤ) → Request
  getdents64 : (fd : ℤ) (dirp size : ℕ) → Request
  lseek : (fd offset : ℤ) (whence : ℕ) → Request
  ftruncate : (fd length : ℤ) → Request
  fchown : (fd : ℤ) (owner group : ℕ) → Request
  fchmod : (fd : ℤ) (mode : ℕ) → Request
  fsync : (fd : ℤ) → Request
  openat : (dirfd : ℤ) (pathp flags mode : ℕ) → Request
  close : (fd : ℤ) → Request
  readlinkat : (dirfd : ℤ) (pathp bufp size : ℕ) → Request
  newfstatat : (dirfd : ℤ) (pathp statbufp flags : ℕ) → Request
  truncate : (scratch : Ptr) (pathp : ℕ) (length : ℤ) → Request
  chown : (pathp owner group : ℕ) → Request
  chmod : (pathp mode : ℕ) → Request
  unlinkat : (dirfd : ℤ) (pathp flags : ℕ) → Request
  renameat : (olddir : ℤ) (oldpathp : ℕ) (newdir : ℤ) (newpathp : ℕ) → Request
  faccessat2 : (dirfd : ℤ) (pathp mode flags : ℕ) → Request
  mkdirat : (dirfd : ℤ) (pathp mode : ℕ) → Request
  chdir : (pathp : ℕ) → Request
  fchdir : (fd : ℤ) → Request
  getcwd : (bufp size : ℕ) → Request
  mmap : (addrup length prot flags : ℕ) (fd off : ℤ) → Request
  munmap : (addrup length : ℕ) → Request
  mprotect : (addrup length prot : ℕ) → Request

-- An answer that is an address.
abbrev pub address : Cmd ℕ → Cmd ℤ
address call = do r ← call; pure (pos r)

abbrev pub handle : Request → Cmd ℤ
handle (Request.write fd bufp size) = sys_write fd bufp size
handle (Request.read fd bufp size) = sys_read fd bufp size
handle (Request.writev fd iovp iovcnt) = sys_writev fd iovp iovcnt
handle (Request.readv fd iovp iovcnt) = sys_readv fd iovp iovcnt
handle (Request.pread64 fd bufp size offset) = sys_pread64 fd bufp size offset
handle (Request.getdents64 fd dirp size) = sys_getdents64 fd dirp size
handle (Request.lseek fd offset whence) = sys_lseek fd offset whence
handle (Request.ftruncate fd length) = sys_ftruncate fd length
handle (Request.fchown fd owner group) = sys_fchown fd owner group
handle (Request.fchmod fd mode) = sys_fchmod fd mode
handle (Request.fsync fd) = sys_fsync fd
handle (Request.openat dirfd pathp flags mode) = sys_openat dirfd pathp flags mode
handle (Request.close fd) = sys_close fd
handle (Request.readlinkat dirfd pathp bufp size) = sys_readlinkat dirfd pathp bufp size
handle (Request.newfstatat dirfd pathp statbufp flags) = sys_newfstatat dirfd pathp statbufp flags
handle (Request.truncate scratch pathp length) = sys_truncate scratch pathp length
handle (Request.chown pathp owner group) = sys_chown pathp owner group
handle (Request.chmod pathp mode) = sys_chmod pathp mode
handle (Request.unlinkat dirfd pathp flags) = sys_unlinkat dirfd pathp flags
handle (Request.renameat olddir oldpathp newdir newpathp) =
    sys_renameat olddir oldpathp newdir newpathp
handle (Request.faccessat2 dirfd pathp mode flags) = sys_faccessat2 dirfd pathp mode flags
handle (Request.mkdirat dirfd pathp mode) = sys_mkdirat dirfd pathp mode
handle (Request.chdir pathp) = sys_chdir pathp
handle (Request.fchdir fd) = sys_fchdir fd
handle (Request.getcwd bufp size) = address (sys_getcwd bufp size)
handle (Request.mmap addrup length prot flags fd off) =
    address (sys_mmap addrup length prot flags fd off)
handle (Request.munmap addrup length) = sys_munmap addrup length
handle (Request.mprotect addrup length prot) = sys_mprotect addrup length prot
