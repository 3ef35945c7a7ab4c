-- ===== src/Syscalls/Info.antt =====
-- Calls that ask and do little else: src/syscalls/sys_info.c, sys_clock.c, sys_random.c,
-- sys_prctl.c, sys_ioctl.c, sys_signal.c and sys_fcntl.c.
use libtux.Base.{
  ℕ, ◌+◌, ◌==◌, not, ◌&&◌, List, [], ◌∷◌, get_or, if◌then◌else◌, ℤ, pos, neg, is_neg, int_eq,
  pos_part, bit_and,
}
use libtux.World.{null, Call, aborted, Cmd, ◌>>=◌, ◌>>◌, pure, ask, modify}
use libtux.World.Memory.{copy_to}
use libtux.Types.{err, Errno, not32}
use libtux.AddrSpace.Access.{procbuf, procbufalign}
use libtux.Host.Stat.{store_fields}
use libtux.Host.Info.{
  grnd_nonblock, grnd_random, host_getrandom, host_time, host_prctl_set_name, host_sysinfo,
  sysinfo_size,
}
use libtux.Syscalls.{or_fault}

-- "Linux", "4.5.0-libtux", "0.0.0-unknown" and "x86_64", each with its NUL.
abbrev pub sysname : List ℕ
sysname = 76 ∷ 105 ∷ 110 ∷ 117 ∷ 120 ∷ 0 ∷ []

abbrev pub release : List ℕ
release = 52 ∷ 46 ∷ 53 ∷ 46 ∷ 48 ∷ 45 ∷ 108 ∷ 105 ∷ 98 ∷ 116 ∷ 117 ∷ 120 ∷ 0 ∷ []

abbrev pub version : List ℕ
version = 48 ∷ 46 ∷ 48 ∷ 46 ∷ 48 ∷ 45 ∷ 117 ∷ 110 ∷ 107 ∷ 110 ∷ 111 ∷ 119 ∷ 110 ∷ 0 ∷ []

abbrev pub machine : List ℕ
machine = 120 ∷ 56 ∷ 54 ∷ 95 ∷ 54 ∷ 52 ∷ 0 ∷ []

-- `struct UTSName` is five arrays of 65 characters; the second is left alone.
unfoldable pub sys_uname : ℕ → Cmd ℤ
sys_uname bufp = or_fault (procbufalign bufp 325 1) λ uts. do
  modify (λ w. record w {
    mem =
        copy_to
          (copy_to (copy_to (copy_to w.mem uts sysname) (uts + 130) release) (uts + 195) version)
          (uts + 260) machine;
  })
  pure (pos 0)

unfoldable pub sys_sysinfo : ℕ → Cmd ℤ
sys_sysinfo infop = or_fault (procbufalign infop sysinfo_size 8) host_sysinfo

unfoldable pub sys_getrlimit : ℤ → ℕ → Cmd ℤ
sys_getrlimit resource rlimp = pure (pos 0)

-- TUX_CLOCK_REALTIME is 0 and TUX_CLOCK_MONOTONIC is 1, for the host too. A failure is answered by
-- the negated errno.
unfoldable pub sys_clock_gettime : ℤ → ℕ → Cmd ℤ
sys_clock_gettime clockid tp =
    if not (int_eq clockid (pos 0)) && not (int_eq clockid (pos 1))
    then pure (err Errno.einval)
    else or_fault (procbufalign tp 16 8) λ t. do
      a ← ask (Call.clock_gettime (pos_part clockid))
      if is_neg a.ret then pure (neg a.errno) else do
        modify (λ w. record w {
          mem =
              store_fields w.mem t ((0, 8, get_or a.fields 0 0) ∷ (8, 8, get_or a.fields 1 0) ∷ []);
        })
        pure (pos 0)

unfoldable pub sys_time : ℕ → Cmd ℤ
sys_time tlocp = if not (tlocp == 0) then pure (err Errno.einval) else host_time

-- A bad pointer is answered by -TUX_EINVAL here.
unfoldable pub sys_getrandom : ℕ → ℕ → ℕ → Cmd ℤ
sys_getrandom bufp buflen flags = do
  buf ← procbuf bufp buflen
  if buf == null
      then pure (err Errno.einval)
      else if not (bit_and flags (bit_and (not32 grnd_random) (not32 grnd_nonblock)) == 0)
      then pure (err Errno.einval)
      else host_getrandom buf buflen flags

unfoldable pub pr_set_name : ℕ → Cmd ℤ
pr_set_name namep = or_fault (procbuf namep 16) host_prctl_set_name

-- TUX_PR_SET_NAME is 15.
unfoldable pub sys_prctl : ℤ → ℕ → Cmd ℤ
sys_prctl op arg2 = if int_eq op (pos 15) then pr_set_name arg2 else pure (err Errno.einval)

abbrev pub tiocgwinsz : ℕ
tiocgwinsz = 0x5413

-- The host's descriptors of stdin, stdout and stderr are 0, 1 and 2.
unfoldable pub sys_ioctl : ℤ → ℕ → ℕ → Cmd ℤ
sys_ioctl fd request va0 =
    if not (int_eq fd (pos 0)) && not (int_eq fd (pos 1)) && not (int_eq fd (pos 2))
    then pure (err Errno.einval)
    else if not (request == tiocgwinsz)
    then pure (err Errno.einval)
    else or_fault (procbufalign va0 8 2) λ ws. do
      a ← ask (Call.winsize (pos_part fd))
      if not (int_eq a.ret (pos 0)) then pure (neg a.errno) else do
        modify (λ w. record w {
          mem = store_fields w.mem ws (
              (0, 2, get_or a.fields 0 0)
              ∷ (2, 2, get_or a.fields 1 0)
              ∷ (4, 2, get_or a.fields 2 0)
              ∷ (6, 2, get_or a.fields 3 0)
              ∷ []);
        })
        pure (pos 0)

unfoldable pub sys_rt_sigaction : ℤ → ℕ → ℕ → ℕ → Cmd ℤ
sys_rt_sigaction sig act old sigsetsize = pure (pos 0)

unfoldable pub sys_rt_sigprocmask : ℤ → ℕ → ℕ → ℕ → Cmd ℤ
sys_rt_sigprocmask how setaddr oldsetaddr sigsetsize = pure (pos 0)

-- The assertion always fails.
unfoldable pub sys_rt_sigreturn : Cmd ℤ
sys_rt_sigreturn w = aborted

unfoldable pub sys_fcntl : ℤ → ℤ → Cmd ℤ
sys_fcntl fd cmd = pure (pos 0)
