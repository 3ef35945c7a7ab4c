-- ===== src/Machine/Runs/Calls.antt =====
-- What a call of the guest comes to, whichever machine it runs on.
use libtux.Base.{ℕ, ◌+◌, ◌*◌, ◌^◌, ◌<◌, ◌≡◌, refl, sym, ◌∙◌, subst, none, some}
use libtux.World.{World, Run, ok, aborted, fault}
use libtux.Threads.{Outcome, returns, exits, pauses}
use libtux.Dispatch.Handlers.{Setup}
use libtux.Machine.{Operations, IsReserved, Laws}
use libtux.Machine.Gate.{
  Context, lfi_ctx_tpset, Running, lfi_ctx_exit, lfi_ctx_pause, Next, resume, saved_context,
  lfi_tux_syscall, lfi_syscall_entry,
}
use libtux.Machine.Runs.{
  Runs, IsConfined, Runs-Confined, after_handler, handler_run, entry-handler, saved-IsReserved,
  answered-IsConfined,
}

module _ (m : Operations) (laws : Laws m) (at page : ℕ) where
  open m use {Registers, regs_return, regs_sp, pc}

  -- What the guest or its embedder may rely on after a call that the handler ended with an outcome.
  abbrev pub Answers : Running m → Outcome → Next m → Type 0
  Answers t (returns v) (Next.again u) =
      IsConfined m laws at page u
      × (regs_return.read u.cpu ≡ v)
      × (regs_sp.read u.cpu ≡ regs_sp.read t.cpu)
      × (pc u.cpu ≡ pc t.cpu)
      × (u.host_stack ≡ t.host_stack)
  Answers t (exits code) (Next.left l) =
      (l.stack ≡ t.host_stack) × (l.value ≡ code) × (l.myctx ≡ none)
  Answers t (pauses code) (Next.left l) =
      (l.stack ≡ t.host_stack)
      × (l.value ≡ code)
      × (ctx : Context m) × (l.myctx ≡ some ctx)
      × IsReserved m at page ctx.regs
  Answers t o n = ⊥

  -- The run of a call against that of its handler.
  abbrev pub Follows : Running m → Run Outcome → Run (Next m) → Type 0
  Follows t (ok o w) (ok n v) = Answers t o n × (v ≡ w)
  Follows t aborted aborted = Unit
  Follows t fault fault = Unit
  Follows t r q = ⊥

  module _ (t : Running m) (r : Runs m laws at page t) (after : Registers)
      (keeps : m.Keeps t.cpu after) (k o : ℕ) (aligned : at ≡ k * 2 ^ 32)
      (inside : pc t.cpu ≡ k * 2 ^ 32 + o) (small : o < 2 ^ 32) (word : pc t.cpu < 2 ^ 64) where
    after_handler-Follows : (q : Run Outcome) → Follows t q (after_handler m laws at page t after q)
    unfolding resume lfi_ctx_exit lfi_ctx_pause
    after_handler-Follows (ok (returns v) w) =
        let c = Runs-Confined m laws at page t r in
        let (answer, sp, goes_on) =
          laws.answer_lem t.cpu t.ctx.regs after v k o (c.saved.base_there ∙ aligned) inside small
            word in
        (
          (
            answered-IsConfined m laws at page t c after keeps (ok (returns v) w),
            answer,
            sp,
            goes_on,
            refl,
          ),
          refl,
        )
    after_handler-Follows (ok (exits code) w) =
        let c = Runs-Confined m laws at page t r in ((c.home, refl, refl), refl)
    after_handler-Follows (ok (pauses code) w) =
        let c = Runs-Confined m laws at page t r in
        (
          (
            c.home,
            refl,
            lfi_ctx_tpset m (saved_context m t) w.thread.tp,
            refl,
            saved-IsReserved m laws at page t c,
          ),
          refl,
        )
    after_handler-Follows aborted = tt
    after_handler-Follows fault = tt

    -- For a thread of such a guest, in a space at a multiple of four GiB, that calls from an address
    -- of the space, the call is the handler's run on the number and the arguments in its registers.
    -- An answer comes back in the register for it, to the address and the stack of the call, with the
    -- reserved registers in place; an exit or a pause comes back to the caller of lfi_ctx_run, on its
    -- own stack, with the code.
    pub lfi_syscall_entry-Follows :
        (s : Setup) (w : World)
        → Follows t
            (handler_run m laws at page t s w)
            (lfi_syscall_entry m (some (lfi_tux_syscall m s)) after t w)
    lfi_syscall_entry-Follows s w =
        subst (Follows t (handler_run m laws at page t s w))
          (sym (entry-handler m laws at page t s after w))
          (after_handler-Follows (handler_run m laws at page t s w))
