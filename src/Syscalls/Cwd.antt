-- ===== src/Syscalls/Cwd.antt =====
-- src/syscalls/sys_cwd.c: the working directory.
pub mod Leave
pub mod Change
pub mod Fchdir
use libtux.Base.{
  ℕ, ◌+◌, ◌-◌, ◌%◌, ◌==◌, not, [], ◌∷◌, if◌then◌else◌, ℤ, pos, is_neg, bit_or, ltb, to_word,
}
use libtux.World.{Ptr, null, Cmd, ◌>>=◌, ◌>>◌, pure, gets, modify}
use libtux.World.Memory.{copy_to}
use libtux.Types.{err, Errno}
use libtux.Types.Open
use libtux.AddrSpace.Access.{procbuf, procpath, path_max}
use libtux.Host.File.{host_openat, host_close}
use libtux.Host.Stat.{host_isdir}
use libtux.Host.Path.{host_getpath}
use libtux.File.{filefile, put_fd_file}
use libtux.Fd.{size_mod, fdget, get_fd_file, fdrelease}
use libtux.Syscalls.{or_no_path}

-- The answer is the address of the buffer, or 0 where the path is not known.
unfoldable pub sys_getcwd : ℕ → ℕ → Cmd ℕ
sys_getcwd bufp size = if size == 0 then pure 0 else do
  buf ← procbuf bufp size
  if buf == null then pure (to_word (err Errno.efault)) else do
    let n = if ltb size path_max then size else path_max
    dir ← gets (λ w. w.proc.cwd_file)
    r ← host_getpath dir buf n
    if is_neg r
        then pure 0
        else do modify (λ w. record w { mem = copy_to w.mem (buf + (n - 1)) (0 ∷ []) }); pure buf

abbrev pub set_cwd : Ptr → Ptr → Cmd (Unit {0})
set_cwd fd file = modify (λ w. record w { proc = record w.proc { cwd_fd = fd; cwd_file = file } })

-- The old working directory is given back: its FDFile if it has one, or else its own file.
unfoldable pub leave_cwd : Cmd (Unit {0})
leave_cwd w =
    (if not (w.proc.cwd_fd == null)
        then (do
          fdrelease w.proc.cwd_fd
          modify (λ v. record v { proc = record v.proc { cwd_fd = null } }))
        else if not (w.proc.cwd_file == null)
        then (do host_close w.proc.cwd_file; pure tt)
        else pure tt)
      w

-- The result of the open is not looked at.
unfoldable pub sys_chdir : ℕ → Cmd ℤ
sys_chdir pathp = or_no_path (procpath pathp) λ path. do
  dir ← gets (λ w. w.proc.cwd_file)
  file ← host_openat dir path (bit_or Open.directory Open.path) 0
  leave_cwd
  modify (λ w. record w { proc = record w.proc { cwd_file = file } })
  pure (pos 0)

unfoldable pub sys_fchdir : ℤ → Cmd ℤ
sys_fchdir fd = do
  ff ← fdget fd
  if ff == null then pure (err Errno.ebadf) else do
    f ← get_fd_file ff
    if not f.ops.file then pure (err Errno.eacces) else do
      isdir ← host_isdir (filefile f.dev)
      if not isdir then pure (err Errno.enotdir) else do
        leave_cwd
        g ← get_fd_file ff
        put_fd_file ff (record g { refs = (g.refs + 1) % size_mod })
        set_cwd ff (filefile f.dev)
        pure (pos 0)
