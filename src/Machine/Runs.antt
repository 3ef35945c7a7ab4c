-- ===== src/Machine/Runs.antt =====
-- What a guest's threads can count on, whichever machine they run on.
pub mod Saved
pub mod Calls
use libtux.Base.{ℕ, ◌+◌, ◌*◌, ◌^◌, ◌<◌, ◌≡◌, refl, sym, ◌∙◌, subst, ap, Option, none, some}
use libtux.World.{Ptr, World, Run, ok, aborted, fault, Cmd, ◌>>=◌, pure, gets, and_then}
use libtux.Threads.{Outcome, returns, exits, pauses}
use libtux.Dispatch.Handlers.{Setup}
use libtux.Dispatch.Arch.{arch_syshandle}
use libtux.Machine.{Operations, IsReserved, Laws, Machine}
use libtux.Machine.Gate.{
  Context, fill, lfi_ctx_tpset, Running, lfi_ctx_run, Left, lfi_ctx_exit, lfi_ctx_pause, Next,
  resume, saved_context, in_thread, lfi_get_tp, lfi_set_tp, lfi_tux_syscall, lfi_syscall_handler,
  lfi_syscall_entry, first_context, cloned_context,
}

module _ (m : Operations) (laws : Laws m) (at page : ℕ) where
  open m use {Registers, regs_return, regs_sp, pc}

  -- Where a thread may come to: as the first one, by the guest's own code, which keeps the reserved
  -- registers, by a call that comes back to it, by the entries for its thread pointer, as the child of
  -- a clone, and when a context that was left in a call is run again.
  pub data Runs : Running m → Type 0 where
    begins :
        (ctxp entry sp stack : ℕ) (host : Registers)
        → Runs (lfi_ctx_run m (first_context m ctxp page at entry sp) host stack)
    works :
        {t : Running m}
        → Runs t
        → (cpu : Registers) → IsReserved m at page cpu
        → Runs (record t { cpu = cpu })
    calls :
        {t u : Running m}
        → Runs t
        → (s : Setup) (after : Registers) (w v : World) → m.Keeps t.cpu after
        → lfi_syscall_entry m (some (lfi_tux_syscall m s)) after t w ≡ ok (Next.again u) v
        → Runs u
    gets_tp : {t : Running m} → Runs t → Runs (lfi_get_tp m t)
    sets_tp : {t : Running m} → Runs t → Runs (lfi_set_tp m t)
    clones :
        {t : Running m}
        → Runs t
        → (ctxp sys sp tp stack : ℕ) (host : Registers)
        → Runs (lfi_ctx_run m (cloned_context m (saved_context m t) ctxp sys sp tp) host stack)
    reruns :
        {t : Running m}
        → Runs t
        → (stack : ℕ) (host : Registers) → Runs (lfi_ctx_run m (saved_context m t) host stack)

  -- The processor and the context have the reserved registers of the space, and an exit finds the
  -- stack on which the thread was run.
  pub record IsConfined (t : Running m) : Type 0 where
    pub running : IsReserved m at page t.cpu
    pub saved : IsReserved m at page t.ctx.regs
    pub home : t.ctx.kstackp ≡ t.host_stack
    pub space : t.ctx.p_as ≡ at

  run-IsConfined :
      (ctx : Context m) (host : Registers) (stack : ℕ)
      → IsReserved m at page ctx.regs
      → ctx.p_as ≡ at
      → IsConfined (lfi_ctx_run m ctx host stack)
  unfolding lfi_ctx_run
  run-IsConfined ctx host stack r e = record {
    running = laws.entry-IsReserved ctx.regs host at page r;
    saved = r;
    home = refl;
    space = e;
  }

  pub saved-IsReserved :
      (t : Running m) → IsConfined t → IsReserved m at page (saved_context m t).regs
  saved-IsReserved t c = laws.save-IsReserved t.cpu t.ctx.regs at page c.saved

  -- A call that comes back to the guest.
  abbrev pub Back : Run (Next m) → Type 0
  Back (ok (Next.again u) v) = IsConfined u
  Back r = Unit

  abbrev pub after_handler : Running m → Registers → Run Outcome → Run (Next m)
  after_handler t after r =
      and_then r λ o w. ok (resume m t (lfi_ctx_tpset m (saved_context m t) w.thread.tp) after o) w

  -- The handler, on the number and the arguments in the guest's registers.
  abbrev pub handler_run : Running m → Setup → World → Run Outcome
  handler_run t s w = arch_syshandle m.arch s (m.sysno t.cpu) (m.args t.cpu) (in_thread m t w)

  pub entry-handler :
      (t : Running m) (s : Setup) (after : Registers) (w : World)
      → lfi_syscall_entry m (some (lfi_tux_syscall m s)) after t w
        ≡ after_handler t after (handler_run t s w)
  unfolding lfi_syscall_entry lfi_tux_syscall lfi_syscall_handler
  entry-handler t s after w =
      let (_, number, arguments) = laws.save_lem t.cpu t.ctx.regs in
      let v = in_thread m t w in
      ap
        (λ n. after_handler t after (arch_syshandle m.arch s n (m.args (saved_context m t).regs) v))
        number
      ∙ ap (λ a. after_handler t after (arch_syshandle m.arch s (m.sysno t.cpu) a v)) arguments

  module _ (t : Running m) (c : IsConfined t) (after : Registers)
      (keeps : m.Keeps t.cpu after) where
    pub answered-IsConfined : (r : Run Outcome) → Back (after_handler t after r)
    unfolding resume
    answered-IsConfined (ok (returns v) w) = record {
      running = laws.answer-IsReserved t.cpu t.ctx.regs after at page v c.running c.saved keeps;
      saved = laws.return-IsReserved (saved_context m t).regs at page v (saved-IsReserved t c);
      home = c.home;
      space = c.space;
    }
    answered-IsConfined (ok (exits code) w) = tt
    answered-IsConfined (ok (pauses code) w) = tt
    answered-IsConfined aborted = tt
    answered-IsConfined fault = tt

  -- At every point of every thread of a guest whose own code keeps the two reserved registers, in
  -- calls, clones and reruns, the processor and the context have the space's base and its page of
  -- entry points in them, and the context has the stack on which the thread was run.
  pub Runs-Confined : (t : Running m) → Runs t → IsConfined t
  unfolding first_context fill cloned_context lfi_get_tp lfi_set_tp
  Runs-Confined t (begins ctxp entry sp stack host) =
      run-IsConfined (first_context m ctxp page at entry sp) host stack
        (laws.begin-IsReserved (m.lfi_regs_init m.zeroed at page) at page entry sp
          (laws.init-IsReserved m.zeroed at page))
        refl
  Runs-Confined t (works {t = before} r cpu kept) =
      let c = Runs-Confined before r in
      record { running = kept; saved = c.saved; home = c.home; space = c.space }
  Runs-Confined t (calls {t = before} r s after w v keeps e) = subst Back e (
      subst Back (sym (entry-handler before s after w))
        (answered-IsConfined before (Runs-Confined before r) after keeps (handler_run before s w)))
  Runs-Confined t (gets_tp {t = before} r) =
      let c = Runs-Confined before r in
      record {
        running = laws.get_tp-IsReserved before.ctx.tp before.cpu at page c.running;
        saved = c.saved;
        home = c.home;
        space = c.space;
      }
  Runs-Confined t (sets_tp {t = before} r) =
      let c = Runs-Confined before r in
      record {
        running = laws.set_tp-IsReserved before.cpu before.ctx.regs at page c.running c.saved;
        saved = c.saved;
        home = c.home;
        space = c.space;
      }
  Runs-Confined t (clones {t = parent} r ctxp sys sp tp stack host) =
      let c = Runs-Confined parent r in
      run-IsConfined (cloned_context m (saved_context m parent) ctxp sys sp tp) host stack
        (laws.sp-IsReserved (regs_return.write (saved_context m parent).regs 0) at page sp (
          laws.return-IsReserved (saved_context m parent).regs at page 0
            (saved-IsReserved parent c)))
        c.space
  Runs-Confined t (reruns {t = before} r stack host) =
      let c = Runs-Confined before r in
      run-IsConfined (saved_context m before) host stack (saved-IsReserved before c) c.space
