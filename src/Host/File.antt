-- ===== src/Host/File.antt =====
-- Open files of the host: src/host/posix/file.c, lines 25 to 103, and the calls on an open file.
use libtux.Base.{ℕ, ◌==◌, not, none, some, if◌then◌else◌, ℤ, pos, is_neg, length}
use libtux.World.{
  Ptr, null, Call, FilePath, aborted, fault, Cmd, ◌>>=◌, ◌>>◌, pure, ask, modify, assert,
}
use libtux.World.Memory.{copy_to, bytes_at}
use libtux.Types.{seek_set, seek_cur, seek_end}
use libtux.Host.{checked, malloc, host_fd, dir_fd, put_host_file}
use libtux.Host.Flags.{openflags}

-- The HostFile in the memory that `malloc` gave; NULL, with the memory given back, if the open failed.
unfoldable pub host_openat : Ptr → FilePath → ℕ → ℕ → Cmd Ptr
unfolding malloc dir_fd openflags
host_openat dir path flags mode = do
  hf ← malloc 4
  if hf == null then pure null else do
    dfd ← dir_fd dir
    a ← ask (Call.openat dfd path (openflags flags) mode)
    if is_neg a.ret then pure null else do put_host_file hf (some (record { fd = a.ret })); pure hf

-- The result of `malloc` is not tested: the write through it would fault.
unfoldable pub host_fdopen : ℤ → Cmd Ptr
unfolding malloc
host_fdopen fd = do
  hf ← malloc 4
  if hf == null then (λ w. fault) else do put_host_file hf (some (record { fd = fd })); pure hf

-- The kernel's bytes go to `buf`.
unfoldable pub host_read : Ptr → Ptr → ℕ → Cmd ℤ
unfolding checked host_fd
host_read file buf size = do
  fd ← host_fd file
  a ← ask (Call.read fd size)
  if is_neg a.ret
      then pure (checked a a.ret)
      else do modify (λ w. record w { mem = copy_to w.mem buf a.bytes }); pure (checked a a.ret)

unfoldable pub host_write : Ptr → Ptr → ℕ → Cmd ℤ
unfolding checked host_fd
host_write file buf size w =
    (do
      fd ← host_fd file
      a ← ask (Call.write fd (bytes_at w.mem buf size))
      pure (checked a a.ret))
      w

-- `assert(!"unreachable")` for any other whence.
unfoldable pub seekwhence : ℕ → Cmd ℕ
seekwhence whence =
    if whence == seek_set
    then pure 0
    else if whence == seek_cur
    then pure 1
    else if whence == seek_end
    then pure 2
    else (λ w. aborted)

unfoldable pub host_seek : Ptr → ℤ → ℕ → Cmd ℤ
unfolding checked host_fd seekwhence
host_seek file loc whence = do
  fd ← host_fd file
  how ← seekwhence whence
  a ← ask (Call.lseek fd loc how)
  pure (checked a a.ret)

-- A HostFile whose descriptor is closed is freed.
unfoldable pub host_close : Ptr → Cmd ℤ
unfolding checked host_fd
host_close file = do
  fd ← host_fd file
  a ← ask (Call.close fd)
  if is_neg a.ret then pure (checked a a.ret) else do put_host_file file none; pure a.ret

-- The calls that hand a descriptor and numbers to the kernel, and return 0 if it did not fail.
unfoldable pub on_file : Ptr → (ℤ → Call) → Cmd ℤ
unfolding checked host_fd
on_file file call = do fd ← host_fd file; a ← ask (call fd); pure (checked a (pos 0))

unfoldable pub host_ftruncate : Ptr → ℤ → Cmd ℤ
unfolding on_file
host_ftruncate file length = on_file file (λ fd. Call.ftruncate fd length)

-- host_fchownat with AT_EMPTY_PATH
unfoldable pub host_fchown : Ptr → ℕ → ℕ → Cmd ℤ
unfolding on_file
host_fchown file owner group = do
  assert (not (file == null))
  on_file file (λ fd. Call.fchown fd owner group)

unfoldable pub host_fchmod : Ptr → ℕ → Cmd ℤ
unfolding on_file
host_fchmod file mode = on_file file (λ fd. Call.fchmod fd mode)

unfoldable pub host_fsync : Ptr → Cmd ℤ
unfolding on_file
host_fsync file = on_file file (λ fd. Call.fsync fd)

-- src/host/linux/dir.c: the kernel's entries go to `dirp`.
unfoldable pub host_getdents64 : Ptr → Ptr → ℕ → Cmd ℤ
unfolding checked host_fd
host_getdents64 file dirp count = do
  fd ← host_fd file
  a ← ask (Call.getdents fd count)
  if is_neg a.ret
      then pure (checked a a.ret)
      else do modify (λ w. record w { mem = copy_to w.mem dirp a.bytes }); pure a.ret
