-- ===== src/Dispatch/Handlers.antt =====
-- The switch of src/sys.c: what each case calls, with the arguments that C makes of the registers.
use libtux.Base.{
  ℕ, ◌%◌, ◌^◌, Bool, Option, none, some, if◌then◌else◌, ℤ, pos, to_int, to_long, to_word,
}
use libtux.World.{Ptr, Cmd, ◌>>=◌, pure}
use libtux.Types.{err, Errno, at_empty_path}
use libtux.AddrSpace.{PlatOptions}
use libtux.Syscalls.File.Data.{
  sys_write, sys_read, sys_writev, sys_readv, sys_close, sys_pread64, sys_getdents64, sys_lseek,
  sys_ftruncate, sys_fchown, sys_fchmod, sys_fsync,
}
use libtux.Syscalls.File.Open.{sys_openat}
use libtux.Syscalls.File.Paths.{
  sys_readlinkat, sys_newfstatat, sys_truncate, sys_unlinkat, sys_renameat, sys_faccessat,
  sys_mkdirat,
}
use libtux.Syscalls.Cwd.{sys_getcwd, sys_chdir, sys_fchdir}
use libtux.Syscalls.Mem.{sys_brk, sys_mmap, sys_munmap, sys_mprotect}
use libtux.Syscalls.Info.{
  sys_uname, sys_sysinfo, sys_getrlimit, sys_clock_gettime, sys_getrandom, sys_prctl, sys_ioctl,
  sys_rt_sigaction, sys_rt_sigprocmask, sys_rt_sigreturn, sys_fcntl,
}
use libtux.Threads.{
  Outcome, returns, sys_exit, sys_exit_group, sys_futex, sys_sched_getaffinity,
  sys_sched_setaffinity, sys_sched_yield, sys_set_tid_address, sys_gettid,
}
use libtux.Dispatch.Number.{Name}

-- The registers of the arguments.
pub record Args : Type 0 where
  pub a0 : ℕ
  pub a1 : ℕ
  pub a2 : ℕ
  pub a3 : ℕ
  pub a4 : ℕ
  pub a5 : ℕ

-- How the library was built and where it runs: CONFIG_THREADS, the platform, and the place of a
-- handler's buffer on the host's stack.
pub record Setup : Type 0 where
  pub threads : Bool
  pub plat : PlatOptions
  pub scratch : Ptr

-- (unsigned) w, also for an int that is a set of flags
abbrev pub low_half : ℕ → ℕ
low_half w = w % 2 ^ 32

-- The result as the guest's register has it.
abbrev pub as_word : Cmd ℤ → Option (Cmd Outcome)
as_word call = some (do r ← call; pure (returns (to_word r)))

abbrev pub as_it_is : Cmd ℕ → Option (Cmd Outcome)
as_it_is call = some (do r ← call; pure (returns r))

abbrev pub always : ℤ → Option (Cmd Outcome)
always r = as_word (pure r)

-- A case that stands only under CONFIG_THREADS, and one that is another without.
abbrev pub with_threads : Setup → Option (Cmd Outcome) → Option (Cmd Outcome)
with_threads s c = if s.threads then c else none

abbrev pub or_zero : Setup → Option (Cmd Outcome) → Option (Cmd Outcome)
or_zero s c = if s.threads then c else always (pos 0)

-- Every case but that of clone, whose arguments stand in the order of the machine. A name that has
-- none reaches `default`.
unfoldable pub common : Setup → Args → Name → Option (Cmd Outcome)
common s r Name.nr_getpid = always (pos 0)
common s r Name.nr_write = as_word (sys_write (to_int r.a0) r.a1 r.a2)
common s r Name.nr_read = as_word (sys_read (to_int r.a0) r.a1 r.a2)
common s r Name.nr_lseek = as_word (sys_lseek (to_int r.a0) (to_long r.a1) (low_half r.a2))
common s r Name.nr_exit = some (sys_exit s.threads r.a0)
common s r Name.nr_exit_group = some (sys_exit_group r.a0)
common s r Name.nr_brk = as_it_is (sys_brk r.a0)
common s r Name.nr_openat = as_word (sys_openat (to_int r.a0) r.a1 (low_half r.a2) (low_half r.a3))
common s r Name.nr_close = as_word (sys_close (to_int r.a0))
common s r Name.nr_writev = as_word (sys_writev (to_int r.a0) r.a1 r.a2)
common s r Name.nr_readv = as_word (sys_readv (to_int r.a0) r.a1 r.a2)
common s r Name.nr_pread64 = as_word (sys_pread64 (to_int r.a0) r.a1 r.a2 (to_long r.a3))
common s r Name.nr_mmap =
    as_it_is (sys_mmap r.a0 r.a1 (low_half r.a2) (low_half r.a3) (to_int r.a4) (to_long r.a5))
common s r Name.nr_mprotect = as_word (sys_mprotect r.a0 r.a1 (low_half r.a2))
common s r Name.nr_munmap = as_word (sys_munmap r.a0 r.a1)
common s r Name.nr_getdents64 = as_word (sys_getdents64 (to_int r.a0) r.a1 r.a2)
common s r Name.nr_newfstatat = as_word (sys_newfstatat (to_int r.a0) r.a1 r.a2 (low_half r.a3))
common s r Name.nr_fstat = as_word (sys_newfstatat (to_int r.a0) 0 r.a1 at_empty_path)
common s r Name.nr_fchmod = as_word (sys_fchmod (to_int r.a0) (low_half r.a1))
common s r Name.nr_truncate = as_word (sys_truncate s.scratch r.a0 (to_long r.a1))
common s r Name.nr_ftruncate = as_word (sys_ftruncate (to_int r.a0) (to_long r.a1))
common s r Name.nr_fchown = as_word (sys_fchown (to_int r.a0) (low_half r.a1) (low_half r.a2))
common s r Name.nr_fsync = as_word (sys_fsync (to_int r.a0))
common s r Name.nr_chdir = as_word (sys_chdir r.a0)
common s r Name.nr_fchdir = as_word (sys_fchdir (to_int r.a0))
common s r Name.nr_mkdirat = as_word (sys_mkdirat (to_int r.a0) r.a1 (low_half r.a2))
common s r Name.nr_getrandom = as_word (sys_getrandom r.a0 r.a1 (low_half r.a2))
common s r Name.nr_getcwd = as_it_is (sys_getcwd r.a0 r.a1)
common s r Name.nr_clock_gettime = as_word (sys_clock_gettime (to_int r.a0) r.a1)
common s r Name.nr_unlinkat = as_word (sys_unlinkat (to_int r.a0) r.a1 (low_half r.a2))
common s r Name.nr_renameat = as_word (sys_renameat (to_int r.a0) r.a1 (to_int r.a2) r.a3)
common s r Name.nr_faccessat = as_word (sys_faccessat (to_int r.a0) r.a1 (low_half r.a2))
common s r Name.nr_readlinkat = as_word (sys_readlinkat (to_int r.a0) r.a1 r.a2 r.a3)
common s r Name.nr_ioctl = as_word (sys_ioctl (to_int r.a0) r.a1 r.a2)
common s r Name.nr_fcntl = as_word (sys_fcntl (to_int r.a0) (to_int r.a1))
common s r Name.nr_gettid = or_zero s (as_word sys_gettid)
common s r Name.nr_futex =
    with_threads s (as_word (sys_futex r.a0 (low_half r.a1) (low_half r.a2) r.a3))
common s r Name.nr_set_tid_address = or_zero s (as_word (sys_set_tid_address r.a0))
common s r Name.nr_sched_getaffinity = with_threads s (as_word (sys_sched_getaffinity r.a1 r.a2))
common s r Name.nr_sched_setaffinity = with_threads s (as_word (sys_sched_setaffinity r.a1 r.a2))
common s r Name.nr_sched_yield = with_threads s (as_word sys_sched_yield)
common s r Name.nr_rt_sigaction = as_word (sys_rt_sigaction (to_int r.a0) r.a1 r.a2 r.a3)
common s r Name.nr_rt_sigprocmask = as_word (sys_rt_sigprocmask (to_int r.a0) r.a1 r.a2 r.a3)
common s r Name.nr_rt_sigreturn = as_word sys_rt_sigreturn
common s r Name.nr_uname = as_word (sys_uname r.a0)
common s r Name.nr_sysinfo = as_word (sys_sysinfo r.a0)
common s r Name.nr_getrlimit = as_word (sys_getrlimit (to_int r.a0) r.a1)
common s r Name.nr_prctl = as_word (sys_prctl (to_int r.a0) r.a1)
common s r Name.nr_set_robust_list = always (pos 0)
common s r Name.nr_membarrier = always (pos 0)
common s r Name.nr_statx = always (err Errno.enosys)
common s r Name.nr_rseq = always (err Errno.enosys)
common s r Name.nr_prlimit64 = always (err Errno.enosys)
common s r Name.nr_statfs = always (err Errno.enosys)
common s r Name.nr_getxattr = always (err Errno.enosys)
common s r Name.nr_lgetxattr = always (err Errno.enosys)
common s r Name.nr_socket = always (err Errno.enosys)
common s r Name.nr_mremap = always (err Errno.enosys)
common s r Name.nr_utimensat = always (err Errno.enosys)
common s r _ = none
