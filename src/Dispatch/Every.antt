-- ===== src/Dispatch/Every.antt =====
-- Every case of the switch of src/sys.c, whatever the registers hold; Every/Machines has arch_syshandle.
pub mod Machines
use libtux.Base.{
  ℕ, ◌≡◌, refl, ap, inl, inr, ◌⊎◌, Bool, true, false, Option, none, some, arith, ℤ, pos, to_int,
  to_long, to_word, if◌then◌else◌,
}
use libtux.World.{World, Run, ok, aborted, fault, Cmd, and_then, pure}
use libtux.World.Total.{Unless, Unless-bind, Unless-weaken}
use libtux.Types.{err, Errno, at_empty_path, at_fdcwd}
use libtux.Syscalls.File.Paths.{
  sys_faccessat, sys_readlink, sys_access, sys_unlink, sys_rename, sys_mkdir, sys_stat, sys_lstat,
}
use libtux.Syscalls.File.Open.{sys_open}
use libtux.Syscalls.Cwd.{sys_getcwd}
use libtux.Syscalls.Cwd.Leave.{HasCwd-IsLive}
use libtux.Syscalls.Mem.{sys_brk, sys_mmap}
use libtux.Dispatch.Arch.{sys_arch_prctl}
use libtux.Syscalls.Info.{
  sys_time, sys_uname, sys_sysinfo, sys_getrlimit, sys_clock_gettime, sys_getrandom, sys_prctl,
  sys_ioctl, sys_rt_sigaction, sys_rt_sigprocmask, sys_rt_sigreturn, sys_fcntl,
}
use libtux.Syscalls.Quiet.Paths.{sys_getcwd-Quiet}
use libtux.Syscalls.Quiet.Mem.{sys_mmap-Quiet}
use libtux.Threads.{
  Outcome, returns, sys_futex, sys_sched_getaffinity, sys_sched_setaffinity, sys_sched_yield,
  sys_set_tid_address, sys_gettid, sys_exit, sys_exit_group, sys_clone,
}
use libtux.Guest.{Request, handle}
use libtux.Guest.Good
use libtux.Guest.Good.{Good}
use libtux.Guest.Later.{Later, Later-Good, Calm, Quiet-Calm}
use libtux.Guest.Calm.{
  sys_uname-Calm, sys_sysinfo-Calm, sys_clock_gettime-Calm, sys_time-Calm, sys_getrandom-Calm,
  sys_prctl-Calm, sys_ioctl-Calm, sys_futex-Calm, sys_sched_getaffinity-Calm, sys_sched_yield-Calm,
  sys_clone-Calm, sys_exit-Calm, sys_exit_group-Calm, sys_set_tid_address-Calm, sys_gettid-Calm,
  sys_arch_prctl-Calm, sys_brk-Calm,
}
use libtux.Guest.Safe.{handle-Outcome}
use libtux.Dispatch.Number.{Name}
use libtux.Dispatch.Handlers.{Args, Setup, common, low_half, as_word, as_it_is, always}
use libtux.Dispatch.Arch.{
  Arch, x64, arm64, is_clone, clone_case, case_of, run_case, switch, decode, syshandle, x64_case,
  x64_first, or_else, arch_syshandle,
}

-- -TUX_EMFILE in the register
abbrev pub full : ℕ
full = to_word (err Errno.emfile)

-- A good state, or an open that found every descriptor in use.
abbrev pub GoodAfter : Outcome → World → Type 0
GoodAfter o v = Good v ⊎ (o ≡ returns full)

abbrev pub SafeCase : World → Option (Cmd Outcome) → Type 0
SafeCase w none = Unit
SafeCase w (some call) = Unless GoodAfter (call w)

module _ (w : World) (g : Good w) where
  answered-Safe :
      (run : Run ℤ)
      → Good.Outcome w run
      → Unless GoodAfter (and_then run (λ a. pure (returns (to_word a))))
  answered-Safe (ok a v) (inl good) = inl good
  answered-Safe (ok a v) (inr e) = inr (ap (λ r. returns (to_word r)) e)
  answered-Safe aborted o = tt
  answered-Safe fault o = o

  pub request-Safe : (q : Request) → SafeCase w (as_word (handle q))
  request-Safe q = answered-Safe (handle q w) (handle-Outcome q w g)

  pub word-Safe : (call : Cmd ℤ) → Calm w (call w) → SafeCase w (as_word call)
  word-Safe call calm =
      Unless-bind (λ _ v. Later w v) GoodAfter (call w) _ calm
        λ a v later. inl (Later-Good w v later g)

  address-Safe : (call : Cmd ℕ) → Calm w (call w) → SafeCase w (as_it_is call)
  address-Safe call calm =
      Unless-bind (λ _ v. Later w v) GoodAfter (call w) _ calm
        λ a v later. inl (Later-Good w v later g)

  outcome-Safe : (call : Cmd Outcome) → Calm w (call w) → SafeCase w (some call)
  outcome-Safe call calm =
      Unless-weaken (λ _ v. Later w v) GoodAfter (call w) calm
        λ o v later. inl (Later-Good w v later g)

  always-Safe : (r : ℤ) → SafeCase w (always r)
  always-Safe r = inl g

  same : Later w w
  same = (refl, refl, refl, refl, refl, refl, omega arith)

  pub if-Safe :
      (b : Bool) (c d : Option (Cmd Outcome))
      → SafeCase w c
      → SafeCase w d
      → SafeCase w (if b then c else d)
  if-Safe true c d h k = h
  if-Safe false c d h k = k

  pub or_else-Safe :
      (c : Option (Cmd Outcome)) (rest : Cmd Outcome)
      → SafeCase w c
      → Unless GoodAfter (rest w)
      → Unless GoodAfter (or_else c rest w)
  or_else-Safe none rest h k = k
  or_else-Safe (some call) rest h k = h

  module _ (s : Setup) (r : Args) where
    pub common-Safe : (name : Name) → SafeCase w (common s r name)
    unfolding common
    common-Safe Name.nr_getpid = always-Safe (pos 0)
    common-Safe Name.nr_write = request-Safe (Request.write (to_int r.a0) r.a1 r.a2)
    common-Safe Name.nr_read = request-Safe (Request.read (to_int r.a0) r.a1 r.a2)
    common-Safe Name.nr_lseek =
        request-Safe (Request.lseek (to_int r.a0) (to_long r.a1) (low_half r.a2))
    common-Safe Name.nr_exit =
        outcome-Safe (sys_exit s.threads r.a0) (sys_exit-Calm w s.threads r.a0)
    common-Safe Name.nr_exit_group = outcome-Safe (sys_exit_group r.a0) (sys_exit_group-Calm w r.a0)
    common-Safe Name.nr_brk = address-Safe (sys_brk r.a0) (sys_brk-Calm w r.a0)
    common-Safe Name.nr_openat =
        request-Safe (Request.openat (to_int r.a0) r.a1 (low_half r.a2) (low_half r.a3))
    common-Safe Name.nr_close = request-Safe (Request.close (to_int r.a0))
    common-Safe Name.nr_writev = request-Safe (Request.writev (to_int r.a0) r.a1 r.a2)
    common-Safe Name.nr_readv = request-Safe (Request.readv (to_int r.a0) r.a1 r.a2)
    common-Safe Name.nr_pread64 =
        request-Safe (Request.pread64 (to_int r.a0) r.a1 r.a2 (to_long r.a3))
    common-Safe Name.nr_mmap =
        address-Safe
          (sys_mmap r.a0 r.a1 (low_half r.a2) (low_half r.a3) (to_int r.a4) (to_long r.a5))
          (Quiet-Calm w
            (sys_mmap r.a0 r.a1 (low_half r.a2) (low_half r.a3) (to_int r.a4) (to_long r.a5) w)
            (sys_mmap-Quiet w g.sound r.a0 r.a1 (low_half r.a2) (low_half r.a3) (to_int r.a4)
              (to_long r.a5)))
    common-Safe Name.nr_mprotect = request-Safe (Request.mprotect r.a0 r.a1 (low_half r.a2))
    common-Safe Name.nr_munmap = request-Safe (Request.munmap r.a0 r.a1)
    common-Safe Name.nr_getdents64 = request-Safe (Request.getdents64 (to_int r.a0) r.a1 r.a2)
    common-Safe Name.nr_newfstatat =
        request-Safe (Request.newfstatat (to_int r.a0) r.a1 r.a2 (low_half r.a3))
    common-Safe Name.nr_fstat = request-Safe (Request.newfstatat (to_int r.a0) 0 r.a1 at_empty_path)
    common-Safe Name.nr_fchmod = request-Safe (Request.fchmod (to_int r.a0) (low_half r.a1))
    common-Safe Name.nr_truncate = request-Safe (Request.truncate s.scratch r.a0 (to_long r.a1))
    common-Safe Name.nr_ftruncate = request-Safe (Request.ftruncate (to_int r.a0) (to_long r.a1))
    common-Safe Name.nr_fchown =
        request-Safe (Request.fchown (to_int r.a0) (low_half r.a1) (low_half r.a2))
    common-Safe Name.nr_fsync = request-Safe (Request.fsync (to_int r.a0))
    common-Safe Name.nr_chdir = request-Safe (Request.chdir r.a0)
    common-Safe Name.nr_fchdir = request-Safe (Request.fchdir (to_int r.a0))
    common-Safe Name.nr_mkdirat = request-Safe (Request.mkdirat (to_int r.a0) r.a1 (low_half r.a2))
    common-Safe Name.nr_getrandom =
        word-Safe (sys_getrandom r.a0 r.a1 (low_half r.a2))
          (sys_getrandom-Calm w r.a0 r.a1 (low_half r.a2))
    common-Safe Name.nr_getcwd = address-Safe (sys_getcwd r.a0 r.a1) (
        Quiet-Calm w (sys_getcwd r.a0 r.a1 w)
          (sys_getcwd-Quiet w g.sound (HasCwd-IsLive w g.sound g.cwd) r.a0 r.a1))
    common-Safe Name.nr_clock_gettime =
        word-Safe (sys_clock_gettime (to_int r.a0) r.a1)
          (sys_clock_gettime-Calm w (to_int r.a0) r.a1)
    common-Safe Name.nr_unlinkat =
        request-Safe (Request.unlinkat (to_int r.a0) r.a1 (low_half r.a2))
    common-Safe Name.nr_renameat =
        request-Safe (Request.renameat (to_int r.a0) r.a1 (to_int r.a2) r.a3)
    common-Safe Name.nr_faccessat =
        unfold sys_faccessat in
        request-Safe (Request.faccessat2 (to_int r.a0) r.a1 (low_half r.a2) 0)
    common-Safe Name.nr_readlinkat = request-Safe (Request.readlinkat (to_int r.a0) r.a1 r.a2 r.a3)
    common-Safe Name.nr_ioctl =
        word-Safe (sys_ioctl (to_int r.a0) r.a1 r.a2) (sys_ioctl-Calm w (to_int r.a0) r.a1 r.a2)
    common-Safe Name.nr_fcntl =
        unfold sys_fcntl in word-Safe (sys_fcntl (to_int r.a0) (to_int r.a1)) same
    common-Safe Name.nr_gettid =
        if-Safe s.threads (as_word sys_gettid) (always (pos 0))
          (word-Safe sys_gettid (sys_gettid-Calm w)) (always-Safe (pos 0))
    common-Safe Name.nr_futex =
        if-Safe s.threads (as_word (sys_futex r.a0 (low_half r.a1) (low_half r.a2) r.a3)) none
          (word-Safe (sys_futex r.a0 (low_half r.a1) (low_half r.a2) r.a3)
            (sys_futex-Calm w r.a0 (low_half r.a1) (low_half r.a2) r.a3))
          tt
    common-Safe Name.nr_set_tid_address =
        if-Safe s.threads (as_word (sys_set_tid_address r.a0)) (always (pos 0))
          (word-Safe (sys_set_tid_address r.a0) (sys_set_tid_address-Calm w r.a0))
          (always-Safe (pos 0))
    common-Safe Name.nr_sched_getaffinity =
        if-Safe s.threads (as_word (sys_sched_getaffinity r.a1 r.a2)) none
          (word-Safe (sys_sched_getaffinity r.a1 r.a2) (sys_sched_getaffinity-Calm w r.a1 r.a2)) tt
    common-Safe Name.nr_sched_setaffinity =
        if-Safe s.threads (as_word (sys_sched_setaffinity r.a1 r.a2)) none
          (unfold sys_sched_setaffinity in word-Safe (sys_sched_setaffinity r.a1 r.a2) same) tt
    common-Safe Name.nr_sched_yield =
        if-Safe s.threads (as_word sys_sched_yield) none
          (word-Safe sys_sched_yield (sys_sched_yield-Calm w)) tt
    common-Safe Name.nr_rt_sigaction =
        unfold sys_rt_sigaction in word-Safe (sys_rt_sigaction (to_int r.a0) r.a1 r.a2 r.a3) same
    common-Safe Name.nr_rt_sigprocmask =
        unfold sys_rt_sigprocmask in
        word-Safe (sys_rt_sigprocmask (to_int r.a0) r.a1 r.a2 r.a3) same
    common-Safe Name.nr_rt_sigreturn = unfold sys_rt_sigreturn in tt
    common-Safe Name.nr_uname = word-Safe (sys_uname r.a0) (sys_uname-Calm w r.a0)
    common-Safe Name.nr_sysinfo = word-Safe (sys_sysinfo r.a0) (sys_sysinfo-Calm w r.a0)
    common-Safe Name.nr_getrlimit =
        unfold sys_getrlimit in word-Safe (sys_getrlimit (to_int r.a0) r.a1) same
    common-Safe Name.nr_prctl =
        word-Safe (sys_prctl (to_int r.a0) r.a1) (sys_prctl-Calm w (to_int r.a0) r.a1)
    common-Safe Name.nr_set_robust_list = always-Safe (pos 0)
    common-Safe Name.nr_membarrier = always-Safe (pos 0)
    common-Safe Name.nr_statx = always-Safe (err Errno.enosys)
    common-Safe Name.nr_rseq = always-Safe (err Errno.enosys)
    common-Safe Name.nr_prlimit64 = always-Safe (err Errno.enosys)
    common-Safe Name.nr_statfs = always-Safe (err Errno.enosys)
    common-Safe Name.nr_getxattr = always-Safe (err Errno.enosys)
    common-Safe Name.nr_lgetxattr = always-Safe (err Errno.enosys)
    common-Safe Name.nr_socket = always-Safe (err Errno.enosys)
    common-Safe Name.nr_mremap = always-Safe (err Errno.enosys)
    common-Safe Name.nr_utimensat = always-Safe (err Errno.enosys)
    common-Safe _ = tt
