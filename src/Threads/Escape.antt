-- ===== src/Threads/Escape.antt =====
-- What the calls on threads write to: addresses that nothing has checked.
use libtux.Base.{ℕ, ◌≡◌, ◌≢◌, true, [], ◌∷◌, arith, if◌then◌else◌}
use libtux.World.{World, ◌>>◌}
use libtux.World.Memory.{copy_to}
use libtux.World.Total.{Holds}
use libtux.AddrSpace.{as_validptr, as_fmptr}
use libtux.AddrSpace.Access.{procaddr, procbufalign}
use libtux.Syscalls.{or_fault}
use libtux.Threads.{
  exits, pauses, sys_set_tid_address, sys_exit, clearctid, leave, sys_futex, host_futexwake,
  host_futexwait, host_futexrequeue, futexwait, timespec_at,
}

-- Whatever address a thread gives to set_tid_address, in the guest's space or not, its exit stores four
-- zero bytes there and changes no other byte; and the exit does not come back to the guest.
pub set_tid_address-exit :
    (a code : ℕ) (w : World)
    → a ≢ 0
    → Holds
        (λ o v.
          (v.mem ≡ copy_to w.mem a (0 ∷ 0 ∷ 0 ∷ 0 ∷ []))
          × (o ≡ (if w.proc.tux.opts.pause_on_exit then pauses code else exits code)))
        ((do sys_set_tid_address a; sys_exit true code) w)
unfolding sys_set_tid_address sys_exit clearctid leave procaddr as_validptr sys_futex or_fault
    procbufalign as_fmptr host_futexwake host_futexwait host_futexrequeue futexwait timespec_at
set_tid_address-exit a code w h = ground arith
