-- ===== src/Engine.antt =====
-- src/tux.c: the engine, which holds the standard files that every process shares.
pub mod Start
use libtux.Base.{ℕ, ◌+◌, ◌%◌, ◌==◌, if◌then◌else◌, Option, none, some}
use libtux.World.{Ptr, null, Tux, TuxOptions, World, Cmd, ◌>>=◌, ◌>>◌, pure, modify, put}
use libtux.Types.Open
use libtux.Host.{malloc}
use libtux.File.{put_fd_file, filefnew}
use libtux.Fd.{size_mod, get_fd_file}

-- ff->refs++
unfoldable pub count_ref : Ptr → Cmd (Unit {0})
count_ref ff = do f ← get_fd_file ff; put_fd_file ff (record f { refs = (f.refs + 1) % size_mod })

unfoldable pub free_file : Ptr → Cmd (Unit {0})
free_file ff = modify (λ w. record w { fd_files = put w.fd_files ff none })

-- The HostFiles of stdin, stdout and stderr are static in the host backend. A failure frees the
-- FDFiles that were made.
unfoldable pub tux_new : TuxOptions → Ptr → Ptr → Ptr → Cmd (Option Tux)
tux_new opts host_stdin host_stdout host_stderr = do
  tux ← malloc 56
  if tux == null then pure none else do
    fin ← filefnew host_stdin Open.rdonly
    if fin == null then pure none else do
      fout ← filefnew host_stdout Open.wronly
      if fout == null then (do free_file fin; pure none) else do
        ferr ← filefnew host_stderr Open.wronly
        if ferr == null then (do free_file fout; free_file fin; pure none) else do
          count_ref fin
          count_ref fout
          count_ref ferr
          pure (some (record { opts = opts; fstdin = fin; fstdout = fout; fstderr = ferr }))
