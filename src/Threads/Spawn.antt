-- ===== src/Threads/Spawn.antt =====
-- What clone makes of its flags, and the thread that it starts.
use libtux.Base.{
  ℕ, ◌+◌, ◌≡◌, Bool, true, false, not, ◌&&◌, ◌||◌, ◌∷◌, ℤ, pos, int_eq, ◌⊎◌, ◌==◌, bit_and,
}
use libtux.Base.Bits.{not64}
use libtux.World.{World, Call, Run, ok, aborted, fault, Thread}
use libtux.Types.{has, err, Errno}
use libtux.Types.Clone
use libtux.Host.{malloc}
use libtux.AddrSpace.{PlatOptions}
use libtux.Threads.{kept_flags, allowed, required}

-- The flags that spawn lets through.
abbrev pub legal : ℕ → Bool
legal flags =
    let sig = bit_and flags 0xff in
    let kept = kept_flags flags in
    (sig == 0 || (sig == Clone.sigchld))
    && not (has kept (not64 allowed))
    && (bit_and kept required == required)

-- pthread_create, which is asked after two allocations, fails for the new thread.
abbrev pub CannotRun : World → Type 0
CannotRun w =
    int_eq
      (w.oracle (Call.malloc 512 ∷ Call.malloc 48 ∷ w.log) (Call.pthread_create w.next_tid)).ret
      (pos 0)
    ≡ false

-- No thread for want of memory, or one more, with the next number; an abort has its reason.
abbrev pub Started : PlatOptions → World → (Thread → Thread) → Run ℤ → Type 0
Started plat w make (ok r v) =
    ((r ≡ err Errno.eagain) × (v.threads ≡ w.threads) × (v.next_tid ≡ w.next_tid))
    ⊎ ((r ≡ pos w.next_tid)
        × (v.threads
            ≡ make (record {
              tid = w.next_tid;
              ctid = 0;
              tp = 0;
              sp = w.thread.sp;
              result = w.thread.result;
            })
              ∷ w.threads)
        × (v.next_tid ≡ w.next_tid + 1))
Started plat w make aborted = (plat.sysexternal ≡ true) ⊎ CannotRun w
Started plat w make fault = ⊥
