-- ===== src/Host.antt =====
-- The host backend: src/host/error.h and src/host/posix/file.c, over the kernel's calls.
pub mod Flags
pub mod File
pub mod Stat
pub mod Memory
pub mod Path
pub mod Info
pub mod Posix
use libtux.Base.{
  ℕ, ◌+◌, if◌then◌else◌, ◌==◌, ◌≡◌, Option, none, some, ℤ, pos, negsuc, is_neg, int_eq,
}
use libtux.World.{
  Ptr, null, Call, Answer, HostFile, World, Run, ok, fault, Cmd, ◌>>=◌, pure, ask, put,
}
use libtux.Types.{err, Errno, at_fdcwd}

-- The host's ENOSYS is 38, and any other negative number becomes EINVAL. The test for the sign
-- comes first.
unfoldable pub tuxerr : ℤ → ℤ
tuxerr (pos e) = pos e
tuxerr (negsuc e) = if e == 37 then err Errno.enosys else err Errno.einval

-- `if (r < 0) return tuxerr(errno);`, else the given value
unfoldable pub checked : Answer → ℤ → ℤ
unfolding tuxerr
checked a r = if is_neg a.ret then tuxerr (pos a.errno) else r

-- An address that nothing uses.
abbrev pub fresh : Cmd Ptr
fresh w = ok w.next (record w { next = w.next + 1 })

unfoldable pub malloc : ℕ → Cmd Ptr
malloc size = do a ← ask (Call.malloc size); if int_eq a.ret (pos 0) then pure null else fresh

-- `hf->fd`, a fault where no HostFile lives.
unfoldable pub host_fd : Ptr → Cmd ℤ
host_fd hf w = elim (w.host_files hf) [ none ↦ fault | some h ↦ ok h.fd w ]

-- `dir ? dir->fd : AT_FDCWD`
unfoldable pub dir_fd : Ptr → Cmd ℤ
unfolding host_fd
dir_fd dir = if dir == null then pure at_fdcwd else host_fd dir

abbrev pub put_host_file : Ptr → Option HostFile → Cmd (Unit {0})
put_host_file p h w = ok tt (record w { host_files = put w.host_files p h })
