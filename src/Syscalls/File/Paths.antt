-- ===== src/Syscalls/File/Paths.antt =====
-- The calls on paths.
use libtux.Base.{ℕ, ◌==◌, not, ◌&&◌, ◌||◌, if◌then◌else◌, none, some, ℤ, pos, is_neg, int_eq}
use libtux.World.{Ptr, null, Call, FilePath, Cmd, ◌>>=◌, pure, gets, ask}
use libtux.World.Memory.{bytes_at}
use libtux.Types.{err, Errno, has, at_fdcwd, at_removedir, at_empty_path}
use libtux.AddrSpace.Access.{procbuf, procbufalign, procpath, path_max}
use libtux.Host.Stat.{host_fstatat, stat_size, stat_align}
use libtux.Host.Path.{
  host_truncate, host_fchownat, host_fchmodat, host_unlinkat, host_faccessat2, host_mkdirat,
  host_renameat2, host_readlinkat, host_getpath,
}
use libtux.File.{filestat}
use libtux.Syscalls.{with_file, or_fault, or_no_path}
use libtux.Syscalls.File.{getfdir, no_dir, neg_errno}

-- `dir = getfdir(…); if (dirfd != AT_FDCWD && !dir) return -TUX_EBADF;`
unfoldable pub with_dir : ℤ → (Ptr → Cmd ℤ) → Cmd ℤ
with_dir dirfd body = do
  dir ← getfdir dirfd
  if no_dir dirfd dir then pure (err Errno.ebadf) else body dir

-- A negative result of the host becomes `-errno`.
unfoldable pub or_errno : Cmd ℤ → Cmd ℤ
or_errno call = do r ← call; if is_neg r then neg_errno else pure r

-- Both pointers are looked at before either is refused.
unfoldable pub sys_readlinkat : ℤ → ℕ → ℕ → ℕ → Cmd ℤ
sys_readlinkat dirfd pathp bufp size = with_dir dirfd λ dir. do
  found ← procpath pathp
  buf ← procbuf bufp size
  elim found [
    | none ↦ pure (err Errno.efault)
    | some path ↦
        if buf == null
        then pure (err Errno.efault)
        else or_errno (host_readlinkat dir path buf size)
  ]

unfoldable pub sys_readlink : ℕ → ℕ → ℕ → Cmd ℤ
sys_readlink pathp bufp size = sys_readlinkat at_fdcwd pathp bufp size

unfoldable pub sys_newfstatat : ℤ → ℕ → ℕ → ℕ → Cmd ℤ
sys_newfstatat dirfd pathp statbufp flags =
    or_fault (procbufalign statbufp stat_size stat_align) λ stat.
      if not (has flags at_empty_path)
      then or_no_path (procpath pathp) (λ path. with_dir dirfd λ dir. host_fstatat dir path stat 0)
      else with_file dirfd
          λ f. if not f.ops.stat_ then pure (err Errno.eacces) else filestat f.dev stat

unfoldable pub sys_fstat : ℤ → ℕ → Cmd ℤ
sys_fstat fd statbufp = sys_newfstatat fd 0 statbufp at_empty_path

unfoldable pub sys_stat : ℕ → ℕ → Cmd ℤ
sys_stat pathp statbufp = sys_newfstatat at_fdcwd pathp statbufp 0

unfoldable pub sys_lstat : ℕ → ℕ → Cmd ℤ
sys_lstat pathp statbufp = sys_stat pathp statbufp

-- Whether a path is absolute is cwalk's to say. The path of the working directory goes to a buffer
-- on the host's stack, at `scratch`, and cwalk joins the two.
unfoldable pub absolute : Ptr → FilePath → (FilePath → Cmd ℤ) → Cmd ℤ
absolute scratch path body = do
  is_absolute ← ask (Call.path_is_absolute path)
  if not (int_eq is_absolute.ret (pos 0)) then body path else do
    dir ← gets (λ w. w.proc.cwd_file)
    r ← host_getpath dir scratch path_max
    if is_neg r then pure r else do
      cwd ← gets (λ w. bytes_at w.mem scratch path_max)
      joined ← ask (Call.path_join cwd path path_max)
      body joined.bytes

unfoldable pub sys_truncate : Ptr → ℕ → ℤ → Cmd ℤ
sys_truncate scratch pathp length =
    or_no_path (procpath pathp) λ path. absolute scratch path λ full. host_truncate full length

-- The working directory's file, for a path.
unfoldable pub at_cwd : ℕ → (Ptr → FilePath → Cmd ℤ) → Cmd ℤ
at_cwd pathp body =
    or_no_path (procpath pathp) λ path. do dir ← gets (λ w. w.proc.cwd_file); body dir path

unfoldable pub sys_chown : ℕ → ℕ → ℕ → Cmd ℤ
sys_chown pathp owner group = at_cwd pathp λ dir path. host_fchownat dir path owner group

unfoldable pub sys_chmod : ℕ → ℕ → Cmd ℤ
sys_chmod pathp mode = at_cwd pathp λ dir path. host_fchmodat dir path mode 0

unfoldable pub sys_unlinkat : ℤ → ℕ → ℕ → Cmd ℤ
sys_unlinkat dirfd pathp flags = with_dir dirfd λ dir.
    if not (flags == 0) && not (flags == at_removedir)
    then pure (err Errno.einval)
    else or_no_path (procpath pathp) λ path. or_errno (host_unlinkat dir path flags)

unfoldable pub sys_unlink : ℕ → Cmd ℤ
sys_unlink pathp = sys_unlinkat at_fdcwd pathp 0

unfoldable pub sys_renameat : ℤ → ℕ → ℤ → ℕ → Cmd ℤ
sys_renameat olddir oldpathp newdir newpathp = do
  oldf ← getfdir olddir
  newf ← getfdir newdir
  if no_dir olddir oldf || no_dir newdir newf
      then pure (err Errno.ebadf)
      else or_no_path (procpath oldpathp) λ oldpath.
        or_no_path (procpath newpathp) λ newpath. host_renameat2 oldf oldpath newf newpath 0

unfoldable pub sys_rename : ℕ → ℕ → Cmd ℤ
sys_rename oldpathp newpathp = sys_renameat at_fdcwd oldpathp at_fdcwd newpathp

unfoldable pub sys_faccessat2 : ℤ → ℕ → ℕ → ℕ → Cmd ℤ
sys_faccessat2 dirfd pathp mode flags = with_dir dirfd λ dir.
    if not (flags == 0)
    then pure (err Errno.einval)
    else or_no_path (procpath pathp) λ path. host_faccessat2 dir path mode 0

unfoldable pub sys_faccessat : ℤ → ℕ → ℕ → Cmd ℤ
sys_faccessat dirfd pathp mode = sys_faccessat2 dirfd pathp mode 0

unfoldable pub sys_access : ℕ → ℕ → Cmd ℤ
sys_access pathp mode = sys_faccessat2 at_fdcwd pathp mode 0

unfoldable pub sys_mkdirat : ℤ → ℕ → ℕ → Cmd ℤ
sys_mkdirat dirfd pathp mode =
    with_dir dirfd λ dir. or_no_path (procpath pathp) λ path. host_mkdirat dir path mode

unfoldable pub sys_mkdir : ℕ → ℕ → Cmd ℤ
sys_mkdir pathp mode = sys_mkdirat at_fdcwd pathp mode
