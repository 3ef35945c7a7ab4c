-- ===== src/Dispatch/Every/Machines.antt =====
-- The switches of src/arch/*/sys.c: every call that has a number, on either machine.
use libtux.Base.{ℕ, Option, none, some, to_int}
use libtux.World.{World, Cmd}
use libtux.World.Total.{Unless}
use libtux.Types.{at_fdcwd}
use libtux.Syscalls.File.Paths.{
  sys_readlink, sys_access, sys_unlink, sys_rename, sys_mkdir, sys_stat, sys_lstat,
}
use libtux.Syscalls.File.Open.{sys_open}
use libtux.Dispatch.Arch.{sys_arch_prctl}
use libtux.Syscalls.Info.{sys_time}
use libtux.Threads.{Outcome, sys_clone}
use libtux.Guest.{Request}
use libtux.Guest.Good.{Good}
use libtux.Guest.Calm.{sys_time-Calm, sys_clone-Calm, sys_arch_prctl-Calm}
use libtux.Dispatch.Number.{Name}
use libtux.Dispatch.Handlers.{Args, Setup, low_half, as_word}
use libtux.Dispatch.Arch.{
  Arch, x64, arm64, is_clone, clone_case, case_of, run_case, switch, decode, syshandle, x64_case,
  x64_first, arch_syshandle,
}
use libtux.Dispatch.Every.{
  GoodAfter, SafeCase, word-Safe, request-Safe, if-Safe, or_else-Safe, common-Safe,
}

module _ (w : World) (g : Good w) (s : Setup) (r : Args) where
  clone_case-Safe : (arch : Arch) → SafeCase w (as_word (clone_case arch s r))
  unfolding clone_case
  clone_case-Safe x64 =
      word-Safe w g (sys_clone s.plat r.a0 r.a1 r.a2 r.a3 r.a4)
        (sys_clone-Calm w s.plat r.a0 r.a1 r.a2 r.a3 r.a4)
  clone_case-Safe arm64 =
      word-Safe w g (sys_clone s.plat r.a0 r.a1 r.a2 r.a4 r.a3)
        (sys_clone-Calm w s.plat r.a0 r.a1 r.a2 r.a4 r.a3)

  case_of-Safe : (arch : Arch) (name : Name) → SafeCase w (case_of arch s r name)
  unfolding case_of
  case_of-Safe arch name =
      if-Safe w g (is_clone name) _ _ (if-Safe w g s.threads _ _ (clone_case-Safe arch) tt)
        (common-Safe w g s r name)

  run_case-Safe : (c : Option (Cmd Outcome)) → SafeCase w c → Unless GoodAfter (run_case c w)
  unfolding run_case
  run_case-Safe none h = tt
  run_case-Safe (some call) h = h

  switch-Safe : (arch : Arch) (name : Option Name) → Unless GoodAfter (switch arch s r name w)
  unfolding switch
  switch-Safe arch none = run_case-Safe none tt
  switch-Safe arch (some name) = run_case-Safe (case_of arch s r name) (case_of-Safe arch name)

  x64_case-Safe : (name : Name) → SafeCase w (x64_case r name)
  unfolding x64_case sys_readlink sys_access sys_unlink sys_rename sys_mkdir sys_open sys_stat
      sys_lstat
  x64_case-Safe Name.nr_arch_prctl =
      word-Safe w g (sys_arch_prctl (to_int r.a0) r.a1) (sys_arch_prctl-Calm w (to_int r.a0) r.a1)
  x64_case-Safe Name.nr_readlink = request-Safe w g (Request.readlinkat at_fdcwd r.a0 r.a1 r.a2)
  x64_case-Safe Name.nr_access =
      request-Safe w g (Request.faccessat2 at_fdcwd r.a0 (low_half r.a1) 0)
  x64_case-Safe Name.nr_unlink = request-Safe w g (Request.unlinkat at_fdcwd r.a0 0)
  x64_case-Safe Name.nr_time = word-Safe w g (sys_time r.a0) (sys_time-Calm w r.a0)
  x64_case-Safe Name.nr_chown =
      request-Safe w g (Request.chown r.a0 (low_half r.a1) (low_half r.a2))
  x64_case-Safe Name.nr_chmod = request-Safe w g (Request.chmod r.a0 (low_half r.a1))
  x64_case-Safe Name.nr_rename = request-Safe w g (Request.renameat at_fdcwd r.a0 at_fdcwd r.a1)
  x64_case-Safe Name.nr_mkdir = request-Safe w g (Request.mkdirat at_fdcwd r.a0 (low_half r.a1))
  x64_case-Safe Name.nr_open =
      request-Safe w g (Request.openat at_fdcwd r.a0 (low_half r.a1) (low_half r.a2))
  x64_case-Safe Name.nr_stat = request-Safe w g (Request.newfstatat at_fdcwd r.a0 r.a1 0)
  x64_case-Safe Name.nr_lstat = request-Safe w g (Request.newfstatat at_fdcwd r.a0 r.a1 0)
  x64_case-Safe _ = tt

  x64_first-Safe :
      (rest : Cmd Outcome) (name : Option Name)
      → Unless GoodAfter (rest w)
      → Unless GoodAfter (x64_first r rest name w)
  unfolding x64_first
  x64_first-Safe rest none h = h
  x64_first-Safe rest (some name) h = or_else-Safe w g (x64_case r name) rest (x64_case-Safe name) h

  -- From a good state a call by any number, with any registers, on either machine, does not fault;
  -- if it returns or ends its thread, the state is good again, but after an open that found every
  -- descriptor in use.
  pub arch_syshandle-Safe : (arch : Arch) (n : ℕ) → Unless GoodAfter (arch_syshandle arch s n r w)
  unfolding arch_syshandle syshandle
  arch_syshandle-Safe x64 n =
      x64_first-Safe (syshandle x64 s n r) (decode x64 n) (switch-Safe x64 (decode x64 n))
  arch_syshandle-Safe arm64 n = switch-Safe arm64 (decode arm64 n)
