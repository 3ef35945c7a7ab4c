-- ===== src/Host/Posix/Rest.antt =====
-- The small files of src/host/posix: random.c, cpu.c, info.c, path.c, prctl.c and thread.c.
use libtux.Base.{ℕ, ltb, if◌then◌else◌, ℤ, pos, is_neg, pos_part, replicate, take}
use libtux.World.{Ptr, Call, Cmd, ◌>>=◌, ◌>>◌, pure, ask, modify, aborted}
use libtux.World.Memory.{copy_to}
use libtux.Host.{tuxerr}
use libtux.Host.Info.{sysinfo_size}

-- At most 256 bytes, without a look at the flags.
unfoldable pub host_getrandom : Ptr → ℕ → ℕ → Cmd ℤ
host_getrandom buf size flags =
    let n = if ltb 256 size then 256 else size in
    do
      a ← ask (Call.getentropy n)
      if is_neg a.ret
          then pure (tuxerr (pos a.errno))
          else do modify (λ w. record w { mem = copy_to w.mem buf (take n a.bytes) }); pure (pos n)

-- The number of processors that are online, as an unsigned.
unfoldable pub host_cpucount : Cmd ℕ
host_cpucount = do a ← ask Call.cpucount; pure (pos_part a.ret)

-- Nothing is told.
unfoldable pub host_sysinfo : Ptr → Cmd ℤ
host_sysinfo info = do
  modify (λ w. record w { mem = copy_to w.mem info (replicate sysinfo_size 0) })
  pure (pos 0)

-- A failed assertion.
abbrev pub host_getpath : Ptr → Ptr → ℕ → Cmd ℤ
host_getpath dir buf size w = aborted

abbrev pub host_prctl_set_name : Ptr → Cmd ℤ
host_prctl_set_name name = pure (pos 0)

unfoldable pub host_sched_yield : Cmd ℤ
host_sched_yield = do a ← ask Call.sched_yield; pure a.ret
