-- ===== src/Threads.antt =====
-- src/syscalls/sys_thread.c and src/syscalls/sys_proc.c: futexes, clone, and the end of a thread,
-- over src/host/linux/futex.c.
pub mod Spawn
pub mod Escape
use libtux.Base.{
  ℕ, zero, suc, ◌+◌, ◌-◌, ◌*◌, ◌/◌, ◌%◌, ◌^◌, ◌==◌, Bool, true, false, not, ◌||◌, ◌&&◌, List, [],
  ◌∷◌, ◌++◌, Option, none, some, if◌then◌else◌, bit_and, bit_or, ltb, ℤ, pos, neg, pos_part, int_eq,
  to_word, replicate, length, set, get_or,
}
use libtux.Base.Bits.{not64}
use libtux.World.{
  Ptr, null, Call, Thread, Proc, AddrSpace, World, ok, Cmd, ◌>>=◌, ◌>>◌, pure, ask, gets, modify,
  assert,
}
use libtux.World.Memory.{bytes_at, copy_to, le_bytes, from_le}
use libtux.Align.{ceilp}
use libtux.Types.{has, not32, err, Errno}
use libtux.Types.Clone
use libtux.Types.Futex
use libtux.Host.{malloc}
use libtux.AddrSpace.{PlatOptions}
use libtux.AddrSpace.Access.{procaddr, procbufalign}
use libtux.Context.{lfi_ctx_new}
use libtux.Syscalls.{or_fault}

-- The kernel's result as it is: -1 for a failure, not the errno.
unfoldable pub host_futexwait : Ptr → ℕ → ℕ → Option (ℕ × ℕ) → Cmd ℤ
host_futexwait uaddr op val timeout = do a ← ask (Call.futex uaddr op val timeout); pure a.ret

unfoldable pub host_futexwake : Ptr → ℕ → ℕ → Cmd ℤ
host_futexwake uaddr op val = do a ← ask (Call.futex uaddr op val none); pure a.ret

-- The second address is not passed on.
unfoldable pub host_futexrequeue : Ptr → ℕ → ℕ → Cmd ℤ
host_futexrequeue uaddr op val = do a ← ask (Call.futex uaddr op val none); pure a.ret

-- The `struct TimeSpec` that `p` points to.
unfoldable pub timespec_at : Ptr → World → ℕ × ℕ
timespec_at p w = (from_le (bytes_at w.mem p 8), from_le (bytes_at w.mem (p + 8) 8))

unfoldable pub futexwait : Ptr → ℕ → ℕ → ℕ → Cmd ℤ
futexwait uaddr op val timeoutp =
    if timeoutp == 0
    then host_futexwait uaddr op val none
    else or_fault (procbufalign timeoutp 16 8)
        λ timeout. do t ← gets (timespec_at timeout); host_futexwait uaddr op val (some t)

abbrev pub futexwake : Ptr → ℕ → ℕ → Cmd ℤ
futexwake uaddr op val = host_futexwake uaddr op val

abbrev pub futexrequeue : Ptr → ℕ → ℕ → Cmd ℤ
futexrequeue uaddr op val = host_futexrequeue uaddr op val

unfoldable pub sys_futex : ℕ → ℕ → ℕ → ℕ → Cmd ℤ
sys_futex uaddrp op val timeoutp =
    if not (bit_and uaddrp 3 == 0)
    then pure (err Errno.efault)
    else or_fault (procbufalign uaddrp 4 4) λ uaddr.
      let cmd = bit_and op (not32 Futex.private_flag) in
      if cmd == Futex.wait
      then futexwait uaddr op val timeoutp
      else if cmd == Futex.wake
      then futexwake uaddr op val
      else if cmd == Futex.requeue
      then futexrequeue uaddr op val
      else pure (err Errno.einval)

unfoldable pub isfork : ℕ → Bool
isfork flags =
    let rest = bit_and flags (not64 (bit_or Clone.child_settid Clone.child_cleartid)) in
    rest == Clone.sigchld || (rest == bit_or (bit_or Clone.vm Clone.vfork) Clone.sigchld)

unfoldable pub nexttid : Cmd ℕ
nexttid w = ok w.next_tid (record w { next_tid = w.next_tid + 1 })

-- A thread with the registers of the one that calls; `none` without memory.
unfoldable pub procnewthread : PlatOptions → Cmd (Option Thread)
procnewthread plat w =
    (do
      newp ← malloc 48
      if newp == null then pure none else do
        ctx ← lfi_ctx_new plat w.proc.p_as false
        if ctx == null then pure none else do
          tid ← nexttid
          pure (
              some (record {
                tid = tid;
                ctid = 0;
                tp = 0;
                sp = w.thread.sp;
                result = w.thread.result;
              })))
      w

abbrev pub allowed : ℕ
allowed =
    bit_or
      (bit_or
        (bit_or
          (bit_or
            (bit_or
              (bit_or (bit_or (bit_or (bit_or Clone.thread Clone.vm) Clone.fs) Clone.files)
                Clone.sighand)
              Clone.settls)
            Clone.parent_settid)
          Clone.child_cleartid)
        Clone.child_settid)
      Clone.sysvsem

abbrev pub required : ℕ
required =
    bit_or (bit_or (bit_or (bit_or Clone.thread Clone.vm) Clone.fs) Clone.files) Clone.sighand

abbrev pub ignored : ℕ
ignored = bit_or Clone.detached Clone.io

-- The flags without the signal and those that are ignored. The mask of these is an unsigned int,
-- so that the upper half goes too.
unfoldable pub kept_flags : ℕ → ℕ
kept_flags flags = bit_and (bit_and flags (not64 0xff)) (not32 ignored)

-- atomic_store of an int, wherever the address is
abbrev pub store_int : ℕ → ℕ → Cmd (Unit {0})
store_int addr v = modify (λ w. record w { mem = copy_to w.mem addr (le_bytes 4 v) })

abbrev pub when : Bool → Cmd (Unit {0}) → Cmd (Unit {0})
when b m = if b then m else pure tt

-- The thread that clone makes.
unfoldable pub child : ℕ → ℕ → ℕ → ℕ → Thread → Thread
child flags stack ctidp tls t = record t {
  ctid = if has flags Clone.child_cleartid then ctidp else t.ctid;
  tp = if has flags Clone.settls then tls else t.tp;
  sp = stack;
  result = 0;
}

-- pthread_create; if it fails the assertion is one that never holds.
unfoldable pub start_thread : Thread → Cmd (Unit {0})
start_thread t = do
  a ← ask (Call.pthread_create t.tid)
  assert (int_eq a.ret (pos 0))
  modify (λ w. record w { threads = t ∷ w.threads })

unfoldable pub spawn : PlatOptions → ℕ → ℕ → ℕ → ℕ → ℕ → Cmd ℤ
spawn plat flags stack ptidp ctidp tls w =
    (let sig = bit_and flags 0xff in
        let flags = kept_flags flags in
        if not (sig == 0) && not (sig == Clone.sigchld)
        then pure (err Errno.einval)
        else if has flags (not64 allowed)
        then pure (err Errno.einval)
        else if not (bit_and flags required == required)
        then pure (err Errno.einval)
        else do
          made ← procnewthread plat
          elim made [
            | none ↦ pure (err Errno.eagain)
            | some t ↦ do
              when (has flags Clone.child_settid) (store_int (procaddr w ctidp) t.tid)
              start_thread (child flags (procaddr w stack) ctidp tls t)
              when (has flags Clone.parent_settid) (store_int (procaddr w ptidp) t.tid)
              pure (pos t.tid)
          ])
      w

-- fork is an assertion that never holds.
unfoldable pub sys_clone : PlatOptions → ℕ → ℕ → ℕ → ℕ → ℕ → Cmd ℤ
sys_clone plat flags stack ptid ctid tls = do
  assert (not (isfork flags))
  spawn plat flags stack ptid ctid tls

-- One bit for each of the `n` processors from `i` on.
unfoldable pub mask_loop : ℕ → ℕ → List ℕ → List ℕ
mask_loop zero i mask = mask
mask_loop (suc n) i mask =
    mask_loop n (suc i) (set mask (i / 8) (bit_or (get_or mask (i / 8) 0) (2 ^ (i % 8))))

-- The mask goes to the address without any check. `unsigned` sizes, of 32 bits.
unfoldable pub sys_sched_getaffinity : ℕ → ℕ → Cmd ℤ
sys_sched_getaffinity cpusetsize maskaddr w =
    (do
      a ← ask Call.cpucount
      let count = pos_part a.ret
      let rc = ceilp count 64 / 8 % 2 ^ 32
      if ltb cpusetsize rc then pure (err Errno.einval) else do
        let n = if ltb count (rc * 8 % 2 ^ 32) then count else rc * 8 % 2 ^ 32
        mask ← malloc rc
        if mask == null then pure (err Errno.enomem) else do
          modify (λ w. record w {
            mem = copy_to w.mem (procaddr w maskaddr) (mask_loop n 0 (replicate rc 0));
          })
          pure (pos rc))
      w

unfoldable pub sys_sched_setaffinity : ℕ → ℕ → Cmd ℤ
sys_sched_setaffinity cpusetsize maskaddr = pure (pos 0)

unfoldable pub sys_sched_yield : Cmd ℤ
sys_sched_yield = do a ← ask Call.sched_yield; pure a.ret

unfoldable pub sys_set_tid_address : ℕ → Cmd ℤ
sys_set_tid_address ctid w =
    ok (pos w.thread.tid) (record w { thread = record w.thread { ctid = procaddr w ctid } })

unfoldable pub sys_gettid : Cmd ℤ
sys_gettid w = ok (pos w.thread.tid) w

-- How a call ends: it returns to the guest, or the thread is done or paused.
pub data Outcome : Type 0 where
  returns : ℕ → Outcome
  exits : (code : ℕ) → Outcome
  pauses : (code : ℕ) → Outcome

-- INT_MAX
abbrev pub int_max : ℕ
int_max = 2 ^ 31 - 1

-- Zero goes to the address that was set, without any check. `threads` is CONFIG_THREADS.
unfoldable pub clearctid : Bool → Cmd (Unit {0})
clearctid threads w =
    (if not threads then pure tt else do
      when (not (w.thread.ctid == 0)) (store_int (procaddr w w.thread.ctid) 0)
      sys_futex w.thread.ctid Futex.wake int_max 0
      pure tt)
      w

-- lfi_ctx_pause or lfi_ctx_exit, which do not come back.
unfoldable pub leave : ℕ → Cmd Outcome
leave code = gets (λ w. if w.proc.tux.opts.pause_on_exit then pauses code else exits code)

unfoldable pub sys_exit : Bool → ℕ → Cmd Outcome
sys_exit threads code = do clearctid threads; leave code

unfoldable pub sys_exit_group : ℕ → Cmd Outcome
sys_exit_group code = leave code
