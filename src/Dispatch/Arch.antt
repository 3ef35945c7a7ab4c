-- ===== src/Dispatch/Arch.antt =====
-- arch_syshandle of src/arch/x64/sys.c and src/arch/arm64/sys.c, and syshandle of src/sys.c.
use libtux.Base.{
  ℕ, ◌==◌, Bool, true, false, List, [], ◌∷◌, Option, none, some, if◌then◌else◌, ℤ, pos, int_eq,
  to_int,
}
use libtux.World.{aborted, Cmd, ◌>>◌, pure, modify}
use libtux.Types.{err, Errno}
use libtux.AddrSpace.Access.{procaddr}
use libtux.Syscalls.File.Open.{sys_open}
use libtux.Syscalls.File.Paths.{
  sys_readlink, sys_stat, sys_lstat, sys_chown, sys_chmod, sys_unlink, sys_rename, sys_access,
  sys_mkdir,
}
use libtux.Syscalls.Info.{sys_time}
use libtux.Threads.{Outcome, sys_clone}
use libtux.Dispatch.Number.{Name}
use libtux.Dispatch.Number.X64
use libtux.Dispatch.Number.Arm64
use libtux.Dispatch.Handlers.{Args, Setup, common, as_word, with_threads, low_half}

pub data Arch : Type 0 where
  x64 arm64 : Arch

abbrev pub numbers : Arch → List (ℕ × Name)
numbers x64 = X64.table
numbers arm64 = Arm64.table

-- The name that a number has: the first in the table.
unfoldable pub lookup : ℕ → List (ℕ × Name) → Option Name
lookup n [] = none
lookup n ((m, name) ∷ rest) = let later = lookup n rest in if n == m then some name else later

unfoldable pub decode : Arch → ℕ → Option Name
decode arch sysno = lookup sysno (numbers arch)

abbrev pub is_clone : Name → Bool
is_clone Name.nr_clone = true
is_clone _ = false

-- clone(flags, stack, ptid, ctid, tls, func) on x64; on arm64 tls stands before ctid.
unfoldable pub clone_case : Arch → Setup → Args → Cmd ℤ
clone_case x64 s r = sys_clone s.plat r.a0 r.a1 r.a2 r.a3 r.a4
clone_case arm64 s r = sys_clone s.plat r.a0 r.a1 r.a2 r.a4 r.a3

unfoldable pub case_of : Arch → Setup → Args → Name → Option (Cmd Outcome)
case_of arch s r name =
    if is_clone name then with_threads s (as_word (clone_case arch s r)) else common s r name

-- `default` is an assertion that never holds.
unfoldable pub run_case : Option (Cmd Outcome) → Cmd Outcome
run_case none w = aborted
run_case (some call) w = call w

-- The call that a number names, if it names one.
unfoldable pub switch : Arch → Setup → Args → Option Name → Cmd Outcome
switch arch s r none = run_case none
switch arch s r (some name) = run_case (case_of arch s r name)

unfoldable pub syshandle : Arch → Setup → ℕ → Args → Cmd Outcome
syshandle arch s sysno r = switch arch s r (decode arch sysno)

-- TUX_ARCH_SET_FS
abbrev pub arch_set_fs : ℤ
arch_set_fs = pos 0x1002

unfoldable pub sys_arch_prctl : ℤ → ℕ → Cmd ℤ
sys_arch_prctl op addr =
    if int_eq op arch_set_fs
    then (do
      modify (λ w. record w { thread = record w.thread { tp = procaddr w addr } })
      pure (pos 0))
    else pure (err Errno.einval)

-- The cases that only x64 has.
unfoldable pub x64_case : Args → Name → Option (Cmd Outcome)
x64_case r Name.nr_arch_prctl = as_word (sys_arch_prctl (to_int r.a0) r.a1)
x64_case r Name.nr_readlink = as_word (sys_readlink r.a0 r.a1 r.a2)
x64_case r Name.nr_access = as_word (sys_access r.a0 (low_half r.a1))
x64_case r Name.nr_unlink = as_word (sys_unlink r.a0)
x64_case r Name.nr_time = as_word (sys_time r.a0)
x64_case r Name.nr_chown = as_word (sys_chown r.a0 (low_half r.a1) (low_half r.a2))
x64_case r Name.nr_chmod = as_word (sys_chmod r.a0 (low_half r.a1))
x64_case r Name.nr_rename = as_word (sys_rename r.a0 r.a1)
x64_case r Name.nr_mkdir = as_word (sys_mkdir r.a0 (low_half r.a1))
x64_case r Name.nr_open = as_word (sys_open r.a0 (low_half r.a1) (low_half r.a2))
x64_case r Name.nr_stat = as_word (sys_stat r.a0 r.a1)
x64_case r Name.nr_lstat = as_word (sys_lstat r.a0 r.a1)
x64_case r _ = none

-- A case of x64's own, or else what comes behind them.
abbrev pub or_else : Option (Cmd Outcome) → Cmd Outcome → Cmd Outcome
or_else none rest = rest
or_else (some call) rest = call

unfoldable pub x64_first : Args → Cmd Outcome → Option Name → Cmd Outcome
x64_first r rest none = rest
x64_first r rest (some name) = or_else (x64_case r name) rest

-- x64 tries its own cases first.
unfoldable pub arch_syshandle : Arch → Setup → ℕ → Args → Cmd Outcome
arch_syshandle x64 s sysno r = x64_first r (syshandle x64 s sysno r) (decode x64 sysno)
arch_syshandle arm64 s sysno r = syshandle arm64 s sysno r
