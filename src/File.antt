-- ===== src/File.antt =====
-- src/file.c: an FDFile over a file of the host, and the operations that it points to.
use libtux.Base.{ℕ, ◌==◌, Bool, not, true, ◌&&◌, some, if◌then◌else◌, ℤ, is_neg, bit_and}
use libtux.World.{
  Ptr, null, Call, FilePath, File, FdFile, Ops, ok, Cmd, ◌>>=◌, ◌>>◌, pure, ask, put,
}
use libtux.Types.{has, not32}
use libtux.Types.Open
use libtux.Host.{malloc}
use libtux.Host.File.{
  host_openat, host_fdopen, host_read, host_write, host_seek, host_close, host_ftruncate,
  host_fchown, host_fchmod, host_fsync, host_getdents64,
}
use libtux.Host.Stat.{host_fstat}

abbrev pub put_fd_file : Ptr → FdFile → Cmd (Unit {0})
put_fd_file p f w = ok tt (record w { fd_files = put w.fd_files p (some f) })

-- filefnew sets every operation.
abbrev pub all_ops : Ops
all_ops = record {
  read = true;
  write = true;
  lseek = true;
  close = true;
  stat_ = true;
  getdents = true;
  chown = true;
  chmod = true;
  truncate = true;
  sync = true;
  file = true;
}

-- The two allocations are the File and the FDFile, which starts with no reference.
unfoldable pub filefnew : Ptr → ℕ → Cmd Ptr
unfolding malloc
filefnew kfile flags = do
  f ← malloc 16
  if f == null then pure null else do
    ff ← malloc 144
    if ff == null then pure null else do
      put_fd_file ff
          (record { dev = record { file = kfile; flags = flags }; refs = 0; ops = all_ops })
      pure ff

-- The embedder's callback makes its HostFile by lfi_host_fdopen.
unfoldable pub callback_open : FilePath → ℕ → ℕ → Cmd Ptr
unfolding host_fdopen
callback_open path flags mode = do
  a ← ask (Call.fs_open path flags mode)
  if is_neg a.ret then pure null else host_fdopen a.ret

-- Any flags are valid.
abbrev pub validflags : ℕ → Bool
validflags flags = true

unfoldable pub filenew : Ptr → FilePath → ℕ → ℕ → Cmd Ptr
unfolding callback_open host_openat filefnew
filenew dir path fullflags mode w =
    (if not (validflags fullflags) then pure null else do
      let flags =
          if has fullflags Open.cloexec then bit_and fullflags (not32 Open.cloexec) else fullflags
      f ←
          if w.proc.tux.opts.fs_open && (dir == null)
          then callback_open path flags mode
          else pure null
      f ← if f == null then host_openat dir path flags mode else pure f
      if f == null then pure null else filefnew f fullflags)
      w

abbrev pub filef : File → Ptr
filef dev = dev.file

abbrev pub filefile : File → Ptr
filefile dev = filef dev

-- The operations, each on the device of its FDFile.
unfoldable pub fileread : File → Ptr → ℕ → Cmd ℤ
unfolding host_read
fileread dev buf size = host_read (filef dev) buf size

unfoldable pub filewrite : File → Ptr → ℕ → Cmd ℤ
unfolding host_write
filewrite dev buf size = host_write (filef dev) buf size

unfoldable pub filelseek : File → ℤ → ℕ → Cmd ℤ
unfolding host_seek
filelseek dev off whence = host_seek (filef dev) off whence

unfoldable pub filetruncate : File → ℤ → Cmd ℤ
unfolding host_ftruncate
filetruncate dev length = host_ftruncate (filef dev) length

unfoldable pub filechown : File → ℕ → ℕ → Cmd ℤ
unfolding host_fchown
filechown dev owner group = host_fchown (filef dev) owner group

unfoldable pub filechmod : File → ℕ → Cmd ℤ
unfolding host_fchmod
filechmod dev mode = host_fchmod (filef dev) mode

unfoldable pub fileclose : File → Cmd ℤ
unfolding host_close
fileclose dev = host_close (filef dev)

unfoldable pub filestat : File → Ptr → Cmd ℤ
unfolding host_fstat
filestat dev stat = host_fstat (filef dev) stat

unfoldable pub filesync : File → Cmd ℤ
unfolding host_fsync
filesync dev = host_fsync (filef dev)

unfoldable pub filegetdents : File → Ptr → ℕ → Cmd ℤ
unfolding host_getdents64
filegetdents dev dirp size = host_getdents64 (filef dev) dirp size
