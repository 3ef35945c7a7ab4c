-- ===== src/Host/Path.antt =====
-- Calls on a path: src/host/posix/file.c from host_truncate on, and src/host/linux/path.c.
use libtux.Base.{ℕ, ◌-◌, ◌==◌, ◌++◌, [], ◌∷◌, if◌then◌else◌, ℤ, pos, is_neg}
use libtux.World.{Ptr, null, Call, FilePath, Cmd, ◌>>=◌, ◌>>◌, pure, ask, modify, assert}
use libtux.World.Memory.{copy_to}
use libtux.Host.{checked, host_fd, dir_fd}
use libtux.Host.Flags.{unlinkflags}

unfoldable pub host_truncate : FilePath → ℤ → Cmd ℤ
unfolding checked
host_truncate path length = do a ← ask (Call.truncate path length); pure (checked a (pos 0))

-- A call relative to a directory, whose result is 0 if it did not fail.
unfoldable pub in_dir : Ptr → (ℤ → Call) → Cmd ℤ
unfolding checked dir_fd
in_dir dir call = do fd ← dir_fd dir; a ← ask (call fd); pure (checked a (pos 0))

-- With flags other than AT_EMPTY_PATH.
unfoldable pub host_fchownat : Ptr → FilePath → ℕ → ℕ → Cmd ℤ
unfolding in_dir
host_fchownat dir path owner group = in_dir dir (λ fd. Call.fchownat fd path owner group)

unfoldable pub host_fchmodat : Ptr → FilePath → ℕ → ℕ → Cmd ℤ
unfolding in_dir
host_fchmodat dir path mode flags = do
  assert (flags == 0)
  in_dir dir (λ fd. Call.fchmodat fd path mode)

unfoldable pub host_unlinkat : Ptr → FilePath → ℕ → Cmd ℤ
unfolding in_dir unlinkflags
host_unlinkat dir path flags = in_dir dir (λ fd. Call.unlinkat fd path (unlinkflags flags))

unfoldable pub host_faccessat2 : Ptr → FilePath → ℕ → ℕ → Cmd ℤ
unfolding in_dir
host_faccessat2 dir path mode flags = do
  assert (flags == 0)
  in_dir dir (λ fd. Call.faccessat fd path mode)

unfoldable pub host_mkdirat : Ptr → FilePath → ℕ → Cmd ℤ
unfolding in_dir
host_mkdirat dir path mode = in_dir dir (λ fd. Call.mkdirat fd path mode)

unfoldable pub host_renameat2 : Ptr → FilePath → Ptr → FilePath → ℕ → Cmd ℤ
unfolding checked dir_fd
host_renameat2 olddir oldpath newdir newpath flags = do
  assert (flags == 0)
  from ← dir_fd olddir
  to ← dir_fd newdir
  a ← ask (Call.renameat from oldpath to newpath)
  pure (checked a (pos 0))

-- The kernel's bytes go to `buf`.
unfoldable pub host_readlinkat : Ptr → FilePath → Ptr → ℕ → Cmd ℤ
unfolding checked dir_fd
host_readlinkat dir path buf size = do
  fd ← dir_fd dir
  a ← ask (Call.readlinkat fd path size)
  if is_neg a.ret
      then pure (checked a a.ret)
      else do modify (λ w. record w { mem = copy_to w.mem buf a.bytes }); pure a.ret

-- The working directory of the host, or what the kernel says of an open directory, as a C string in
-- `buf`. The kernel writes the NUL of getcwd; the code writes the other.
unfoldable pub host_getpath : Ptr → Ptr → ℕ → Cmd ℤ
unfolding checked host_fd
host_getpath dir buf size =
    if dir == null
    then (do
      a ← ask (Call.getcwd size)
      if is_neg a.ret
          then pure (checked a (pos 0))
          else do modify (λ w. record w { mem = copy_to w.mem buf a.bytes }); pure (pos 0))
    else (do
      fd ← host_fd dir
      a ← ask (Call.readlink_fd fd (size - 1))
      if is_neg a.ret then pure (checked a (pos 0)) else do
        modify (λ w. record w { mem = copy_to w.mem buf (a.bytes ++ 0 ∷ []) })
        pure (pos 0))
