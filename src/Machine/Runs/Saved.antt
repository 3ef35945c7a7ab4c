-- ===== src/Machine/Runs/Saved.antt =====
-- What stays true of the registers in a context, where the code of a machine writes only some of them.
use libtux.Base.{ℕ, subst, sym}
use libtux.World.{Run, ok, aborted, fault}
use libtux.Threads.{Outcome, returns, exits, pauses}
use libtux.Machine.{Operations, Laws}
use libtux.Machine.Gate.{
  fill, Running, lfi_ctx_run, Next, lfi_get_tp, lfi_set_tp, resume, saved_context, first_context,
  cloned_context,
}
use libtux.Machine.Runs.{Runs, after_handler, handler_run, entry-handler}

module _ (m : Operations) (laws : Laws m) (at page : ℕ) (P : m.Registers → Type 0) where
  -- `P` holds at first and is kept by all that is written to a context.
  pub record IsKept : Type 0 where
    pub first : (entry sp : ℕ) → P (m.regs_init (m.lfi_regs_init m.zeroed at page) entry sp)
    pub save : (cpu r : m.Registers) → P r → P (m.save_partial cpu r)
    pub answer : (r : m.Registers) (v : ℕ) → P r → P (m.regs_return.write r v)
    pub stack : (r : m.Registers) (v : ℕ) → P r → P (m.regs_sp.write r v)

  abbrev Back : Run (Next m) → Type 0
  Back (ok (Next.again u) v) = P u.ctx.regs
  Back r = Unit

  module _ (kept : IsKept) where
    after_handler-Back :
        (t : Running m) (after : m.Registers) (r : Run Outcome)
        → P t.ctx.regs
        → Back (after_handler m laws at page t after r)
    unfolding resume
    after_handler-Back t after (ok (returns v) w) p =
        kept.answer (saved_context m t).regs v (kept.save t.cpu t.ctx.regs p)
    after_handler-Back t after (ok (exits code) w) p = tt
    after_handler-Back t after (ok (pauses code) w) p = tt
    after_handler-Back t after aborted p = tt
    after_handler-Back t after fault p = tt

    pub Runs-saved : (t : Running m) → Runs m laws at page t → P t.ctx.regs
    unfolding lfi_ctx_run first_context fill cloned_context lfi_get_tp lfi_set_tp
    Runs-saved t (Runs.begins ctxp entry sp stack host) = kept.first entry sp
    Runs-saved t (Runs.works {t = before} r cpu k) = Runs-saved before r
    Runs-saved t (Runs.calls {t = before} r s after w v keeps e) = subst Back e (
        subst Back (sym (entry-handler m laws at page before s after w)) (
          after_handler-Back before after (handler_run m laws at page before s w)
            (Runs-saved before r)))
    Runs-saved t (Runs.gets_tp {t = before} r) = Runs-saved before r
    Runs-saved t (Runs.sets_tp {t = before} r) = Runs-saved before r
    Runs-saved t (Runs.clones {t = parent} r ctxp sys sp tp stack host) =
        kept.stack (m.regs_return.write (saved_context m parent).regs 0) sp (
          kept.answer (saved_context m parent).regs 0
            (kept.save parent.cpu parent.ctx.regs (Runs-saved parent r)))
    Runs-saved t (Runs.reruns {t = before} r stack host) =
        kept.save before.cpu before.ctx.regs (Runs-saved before r)
