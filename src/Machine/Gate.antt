-- ===== src/Machine/Gate.antt =====
-- How a guest is entered, calls, and is left: src/pal/ctx.c, lfi_syscall_handler of
-- src/pal/platform.c, and what src/proc.c and src/syscalls/sys_thread.c do to the registers.
use libtux.Base.{ℕ, Option, none, some}
use libtux.World.{Ptr, World, Cmd, ◌>>=◌, pure, gets, aborted}
use libtux.Threads.{Outcome, returns, exits, pauses}
use libtux.Dispatch.Handlers.{Setup}
use libtux.Dispatch.Arch.{arch_syshandle}
use libtux.Machine.{Operations}

module _ (m : Operations) where
  open m use {
    arch, Registers, zeroed, lfi_regs_init, regs_init, regs_return, regs_sp, sysno, args,
    restore_regs, save_partial, restore_partial, get_tp, set_tp,
  }

  -- `p_as` is the base of the space.
  pub record Context : Type 0 where
    pub kstackp : ℕ
    pub tp : ℕ
    pub regs : Registers
    pub ctxp : Ptr
    pub sys : Ptr
    pub p_as : ℕ

  -- What lfi_ctx_new fills the memory with that it got.
  unfoldable pub fill : Ptr → Ptr → ℕ → Context
  fill ctxp sys base = record {
    kstackp = 0;
    tp = 0;
    regs = lfi_regs_init zeroed base sys;
    ctxp = ctxp;
    sys = sys;
    p_as = base;
  }

  abbrev pub lfi_ctx_tpset : Context → ℕ → Context
  lfi_ctx_tpset ctx tp = record ctx { tp = tp }

  -- A host thread in the guest: the context in lfi_myctx, the processor, and the stack on which
  -- lfi_ctx_run was called.
  pub record Running : Type 0 where
    pub ctx : Context
    pub cpu : Registers
    pub host_stack : ℕ

  -- lfi_ctx_entry saves the host's stack, and the registers follow. `host` is the processor at the
  -- call, `stack` its stack with what was pushed.
  unfoldable pub lfi_ctx_run : Context → Registers → ℕ → Running
  lfi_ctx_run ctx host stack = record {
    ctx = record ctx { kstackp = stack };
    cpu = restore_regs ctx.regs host;
    host_stack = stack;
  }

  -- What the caller of lfi_ctx_run has then: the context in lfi_myctx, the stack and the value.
  pub record Left : Type 0 where
    pub myctx : Option Context
    pub stack : ℕ
    pub value : ℕ

  unfoldable pub lfi_ctx_exit : Context → ℕ → Left
  lfi_ctx_exit ctx val = record { myctx = none; stack = ctx.kstackp; value = val }

  unfoldable pub lfi_ctx_pause : Context → ℕ → Left
  lfi_ctx_pause ctx val = record { myctx = some ctx; stack = ctx.kstackp; value = val }

  -- How a call goes on: in the guest, or behind lfi_ctx_run.
  pub data Next : Type 0 where
    again : Running → Next
    left : Left → Next

  -- What lfi_syscall_entry makes of an outcome, with the context that has been saved to. The handler
  -- left the processor as `after`.
  unfoldable pub resume : Running → Context → Registers → Outcome → Next
  resume t saved after (returns v) =
      let regs = regs_return.write saved.regs v in
      again
        (record t { ctx = record saved { regs = regs }; cpu = restore_partial regs t.cpu after })
  resume t saved after (exits code) = left (lfi_ctx_exit saved code)
  resume t saved after (pauses code) = left (lfi_ctx_pause saved code)

  abbrev pub saved_context : Running → Context
  saved_context t = record t.ctx { regs = save_partial t.cpu t.ctx.regs }

  -- lfi_tux_syscall
  unfoldable pub lfi_tux_syscall : Setup → Registers → Cmd Outcome
  lfi_tux_syscall s regs = arch_syshandle arch s (sysno regs) (args regs)

  -- The handler is the one that lfi_sys_handler put in the platform, if there is one.
  unfoldable pub lfi_syscall_handler : Option (Registers → Cmd Outcome) → Registers → Cmd Outcome
  lfi_syscall_handler none regs w = aborted
  lfi_syscall_handler (some handler) regs w = handler regs w

  -- The world as the handlers see it: the thread pointer of the context stands in the thread.
  abbrev pub in_thread : Running → World → World
  in_thread t w = record w { thread = record w.thread { tp = t.ctx.tp } }

  -- A call of the guest.
  unfoldable pub lfi_syscall_entry :
      Option (Registers → Cmd Outcome) → Registers → Running → Cmd Next
  lfi_syscall_entry handler after t w =
      let saved = saved_context t in
      (do
        o ← lfi_syscall_handler handler saved.regs
        tp ← gets (λ w. w.thread.tp)
        pure (resume t (lfi_ctx_tpset saved tp) after o))
        (in_thread t w)

  -- What the guest enters without a call: its thread pointer, and the end of its run with the value
  -- in the register of a result.
  unfoldable pub lfi_get_tp : Running → Running
  lfi_get_tp t = record t { cpu = get_tp t.ctx.tp t.cpu }

  unfoldable pub lfi_set_tp : Running → Running
  lfi_set_tp t = record t {
    ctx = record t.ctx { tp = regs_return.read t.cpu };
    cpu = set_tp t.ctx.regs t.cpu;
  }

  unfoldable pub lfi_ret : Running → Left
  lfi_ret t = record { myctx = some t.ctx; stack = t.ctx.kstackp; value = regs_return.read t.cpu }

  -- The context of the first thread, as procsetup leaves it.
  unfoldable pub first_context : Ptr → Ptr → ℕ → ℕ → ℕ → Context
  unfolding fill
  first_context ctxp sys base entry sp =
      let ctx = fill ctxp sys base in record ctx { regs = regs_init ctx.regs entry sp }

  -- The context of a thread that the guest clones: a new one, with the registers that were saved for
  -- the parent, in procnewthread, and what spawn changes of them.
  unfoldable pub cloned_context : Context → Ptr → Ptr → ℕ → ℕ → Context
  unfolding fill
  cloned_context parent ctxp sys stack tp =
      let ctx = fill ctxp sys parent.p_as in
      record ctx { tp = tp; regs = regs_sp.write (regs_return.write parent.regs 0) stack }
