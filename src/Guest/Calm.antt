-- ===== src/Guest/Calm.antt =====
-- The calls that touch no file lead to later states.
use libtux.Base.{ℕ, ◌+◌, ◌-◌, ◌%◌, inl, arith, refl, ℤ, pos, Bool}
use libtux.World.{null, World}
use libtux.Host.{malloc}
use libtux.Align.{word_mod}
use libtux.AddrSpace.Access.{procbuf, procbufalign}
use libtux.Host.Info.{host_getrandom, host_time, host_prctl_set_name, host_sysinfo}
use libtux.Syscalls.{or_fault}
use libtux.Syscalls.Info.{
  sys_uname, sys_sysinfo, sys_clock_gettime, sys_time, sys_getrandom, pr_set_name, sys_prctl,
  sys_ioctl,
}
use libtux.Threads.{
  host_futexwait, host_futexwake, host_futexrequeue, futexwait, sys_futex, sys_sched_getaffinity,
  sys_sched_yield, sys_set_tid_address, sys_gettid, clearctid, leave, sys_exit, sys_exit_group,
  nexttid, child, start_thread, procnewthread, spawn, sys_clone,
}
use libtux.AddrSpace.{PlatOptions, as_mapat}
use libtux.Syscalls.Mem.{sys_brk, brk_growth, brk_target, brk_prot, brk_flags}
use libtux.Syscalls.Quiet.Mem.{as_mapat-Quiet}
use libtux.Context.{lfi_ctx_new, sysalloc, syssetup}
use libtux.Host.Memory.{host_mmap, host_mprotect}
use libtux.Host.{host_fd}
use libtux.Dispatch.Arch.{sys_arch_prctl}
use libtux.Guest.Later.{Calm, Quiet-Calm}

module _ (w : World) where
  pub sys_uname-Calm : (bufp : ℕ) → Calm w (sys_uname bufp w)
  unfolding sys_uname or_fault procbufalign
  sys_uname-Calm bufp = ground arith

  pub sys_sysinfo-Calm : (infop : ℕ) → Calm w (sys_sysinfo infop w)
  unfolding sys_sysinfo or_fault procbufalign host_sysinfo
  sys_sysinfo-Calm infop = ground arith

  pub sys_clock_gettime-Calm : (clockid : ℤ) (tp : ℕ) → Calm w (sys_clock_gettime clockid tp w)
  unfolding sys_clock_gettime or_fault procbufalign
  sys_clock_gettime-Calm clockid tp = ground arith

  pub sys_time-Calm : (tlocp : ℕ) → Calm w (sys_time tlocp w)
  unfolding sys_time host_time
  sys_time-Calm tlocp = ground arith

  pub sys_getrandom-Calm : (bufp buflen flags : ℕ) → Calm w (sys_getrandom bufp buflen flags w)
  unfolding sys_getrandom procbuf host_getrandom
  sys_getrandom-Calm bufp buflen flags = ground arith

  pub sys_prctl-Calm : (op : ℤ) (arg2 : ℕ) → Calm w (sys_prctl op arg2 w)
  unfolding sys_prctl pr_set_name or_fault procbuf host_prctl_set_name
  sys_prctl-Calm op arg2 = ground arith

  pub sys_ioctl-Calm : (fd : ℤ) (request va0 : ℕ) → Calm w (sys_ioctl fd request va0 w)
  unfolding sys_ioctl or_fault procbufalign
  sys_ioctl-Calm fd request va0 = ground arith

  pub sys_futex-Calm : (uaddrp op val timeoutp : ℕ) → Calm w (sys_futex uaddrp op val timeoutp w)
  unfolding sys_futex futexwait or_fault procbufalign host_futexwait host_futexwake
      host_futexrequeue
  sys_futex-Calm uaddrp op val timeoutp = ground arith

  pub sys_sched_getaffinity-Calm :
      (size maskaddr : ℕ) → Calm w (sys_sched_getaffinity size maskaddr w)
  unfolding sys_sched_getaffinity malloc
  sys_sched_getaffinity-Calm size maskaddr = ground arith

  pub sys_sched_yield-Calm : Calm w (sys_sched_yield w)
  unfolding sys_sched_yield
  sys_sched_yield-Calm = ground arith

  pub sys_clone-Calm :
      (plat : PlatOptions) (flags stack ptid ctid tls : ℕ)
      → Calm w (sys_clone plat flags stack ptid ctid tls w)
  unfolding sys_clone spawn procnewthread lfi_ctx_new sysalloc syssetup nexttid start_thread child
      malloc host_mmap host_mprotect host_fd
  sys_clone-Calm plat flags stack ptid ctid tls = ground arith

  pub sys_exit-Calm : (threads : Bool) (code : ℕ) → Calm w (sys_exit threads code w)
  unfolding sys_exit clearctid leave sys_futex futexwait or_fault procbufalign host_futexwait
      host_futexwake host_futexrequeue
  sys_exit-Calm threads code = ground arith

  pub sys_exit_group-Calm : (code : ℕ) → Calm w (sys_exit_group code w)
  unfolding sys_exit_group leave
  sys_exit_group-Calm code = ground arith

  pub sys_set_tid_address-Calm : (ctid : ℕ) → Calm w (sys_set_tid_address ctid w)
  unfolding sys_set_tid_address
  sys_set_tid_address-Calm ctid = ground arith

  pub sys_gettid-Calm : Calm w (sys_gettid w)
  unfolding sys_gettid
  sys_gettid-Calm = ground arith

  pub sys_arch_prctl-Calm : (op : ℤ) (addr : ℕ) → Calm w (sys_arch_prctl op addr w)
  unfolding sys_arch_prctl
  sys_arch_prctl-Calm op addr = ground arith

as_mapat-Calm :
    (w : World) (addr size prot flags : ℕ)
    → Calm w (as_mapat w.proc.p_as addr size prot flags null (pos 0) w)
as_mapat-Calm w addr size prot flags =
    Quiet-Calm w (as_mapat w.proc.p_as addr size prot flags null (pos 0) w)
      (as_mapat-Quiet w size prot flags null (pos 0) addr (inl refl))

pub sys_brk-Calm : (w : World) (addr : ℕ) → Calm w (sys_brk addr w)
unfolding sys_brk
sys_brk-Calm w addr =
    let n = (brk_target w addr + word_mod - w.proc.brkbase) % word_mod in
    let (start, size) = brk_growth w.proc n in
    ground (arith, as_mapat-Calm w start size brk_prot brk_flags)
