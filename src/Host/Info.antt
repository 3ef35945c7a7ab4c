-- ===== src/Host/Info.antt =====
-- What the host tells of itself: src/host/linux/random.c, info.c and prctl.c, src/host/posix/time.c.
use libtux.Base.{ℕ, List, [], ◌∷◌, replicate, get_or, if◌then◌else◌, ℤ, pos, is_neg, bit_or}
use libtux.World.{Ptr, Call, Cmd, ◌>>=◌, ◌>>◌, pure, ask, modify}
use libtux.World.Memory.{bytes_at, copy_to}
use libtux.Types.{has}
use libtux.Host.{checked}
use libtux.Host.Stat.{Field, store_fields}

-- TUX_GRND_NONBLOCK and TUX_GRND_RANDOM, which are the host's bits too.
abbrev pub grnd_nonblock : ℕ
grnd_nonblock = 1

abbrev pub grnd_random : ℕ
grnd_random = 2

unfoldable pub linuxflags : ℕ → ℕ
linuxflags flags =
    bit_or (if has flags grnd_random then grnd_random else 0)
      (if has flags grnd_nonblock then grnd_nonblock else 0)

unfoldable pub host_getrandom : Ptr → ℕ → ℕ → Cmd ℤ
unfolding checked linuxflags
host_getrandom buf size flags = do
  a ← ask (Call.getrandom size (linuxflags flags))
  if is_neg a.ret
      then pure (checked a a.ret)
      else do modify (λ w. record w { mem = copy_to w.mem buf a.bytes }); pure (checked a a.ret)

unfoldable pub host_time : Cmd ℤ
unfolding checked
host_time = do a ← ask Call.time; pure (checked a a.ret)

unfoldable pub host_prctl_set_name : Ptr → Cmd ℤ
unfolding checked
host_prctl_set_name name w =
    (do a ← ask (Call.prctl_set_name (bytes_at w.mem name 16)); pure (checked a (pos 0))) w

-- sizeof(struct SysInfo)
abbrev pub sysinfo_size : ℕ
sysinfo_size = 368

-- The host's fields in the order uptime, loads[0] to loads[2], totalram, freeram, sharedram,
-- bufferram, totalswap, freeswap, procs, totalhigh, freehigh, mem_unit.
unfoldable pub sysinfo_fields : List ℕ → List Field
sysinfo_fields k =
    (0, 8, get_or k 0 0)
    ∷ (32, 8, get_or k 4 0)
    ∷ (40, 8, get_or k 5 0)
    ∷ (48, 8, get_or k 6 0)
    ∷ (56, 8, get_or k 7 0)
    ∷ (64, 8, get_or k 8 0)
    ∷ (72, 8, get_or k 9 0)
    ∷ (80, 2, get_or k 10 0)
    ∷ (88, 8, get_or k 11 0)
    ∷ (96, 8, get_or k 12 0)
    ∷ (104, 4, get_or k 13 0)
    ∷ (8, 8, get_or k 1 0)
    ∷ (16, 8, get_or k 2 0)
    ∷ (24, 8, get_or k 3 0)
    ∷ []

-- The fields that are not named become 0.
unfoldable pub host_sysinfo : Ptr → Cmd ℤ
unfolding checked store_fields sysinfo_fields
host_sysinfo info = do
  a ← ask Call.sysinfo
  if is_neg a.ret then pure (checked a (pos 0)) else do
    modify (λ w. record w {
      mem =
          store_fields (copy_to w.mem info (replicate sysinfo_size 0)) info
            (sysinfo_fields a.fields);
    })
    pure (pos 0)
