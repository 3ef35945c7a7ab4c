-- ===== src/Machine/X64/Gate.antt =====
-- The registers of a guest on x64, each of them, over a call and at the start of a cloned thread.
use libtux.Base.{ℕ, ◌≡◌, refl, some}
use libtux.World.{Ptr, World, ok}
use libtux.Threads.{returns}
use libtux.Dispatch.Handlers.{Setup}
use libtux.Dispatch.Arch.{x64, arch_syshandle}
use libtux.Machine.X64.{
  Registers, Keeps, operations, laws, args, regs_return, save_partial, restore_partial,
}
use libtux.Machine.Gate.{
  fill, Running, lfi_ctx_run, Next, resume, saved_context, in_thread, lfi_tux_syscall,
  lfi_syscall_handler, lfi_syscall_entry, cloned_context,
}
use libtux.Machine.Runs.{Runs, Runs-Confined}
use libtux.Machine.Runs.Saved.{IsKept, Runs-saved}

-- A call that the handler answers gives the guest all its registers back, but for the answer in rax,
-- 0 in rcx, and the vector registers, which are as the handler left them.
pub x64_call_lem :
    (t : Running operations) (after : Registers) (s : Setup) (w v : World) (answer : ℕ)
    → Keeps t.cpu after
    → arch_syshandle x64 s t.cpu.rax (args t.cpu) (in_thread operations t w) ≡ ok (returns answer) v
    → (u : Running operations) × (lfi_syscall_entry operations
          (some (lfi_tux_syscall operations s))
          after
          t
          w
        ≡ ok (Next.again u) v)
      × (u.cpu ≡ record t.cpu { rax = answer; rcx = 0; xmm = after.xmm })
unfolding lfi_syscall_entry lfi_tux_syscall lfi_syscall_handler resume
x64_call_lem t after s w v answer keeps e =
    let regs = regs_return.write (save_partial t.cpu t.ctx.regs) answer in
    (
      record t {
        ctx = record t.ctx { tp = v.thread.tp; regs = regs };
        cpu = restore_partial regs t.cpu after;
      },
      rw e refl,
      λ i. record t.cpu {
        rax = answer;
        rcx = 0;
        xmm = after.xmm;
        r12 = keeps.r12 i;
        r13 = keeps.r13 i;
        r14 = keeps.r14 i;
        r15 = keeps.r15 i;
        fs = keeps.fs i;
        gs = keeps.gs i;
      },
    )

-- What nothing ever writes to a context but its first value.
record IsStale (at : ℕ) (r : Registers) : Type 0 where
  rcx : r.rcx ≡ 0
  r12 : r.r12 ≡ 0
  r15 : r.r15 ≡ 0
  gs : r.gs ≡ at

IsStale-IsKept : (at page : ℕ) → IsKept operations laws at page (IsStale at)
IsStale-IsKept at page = record {
  first = λ entry sp. record { rcx = refl; r12 = refl; r15 = refl; gs = refl };
  save = λ cpu r h. record { rcx = h.rcx; r12 = h.r12; r15 = h.r15; gs = h.gs };
  answer = λ r v h. record { rcx = h.rcx; r12 = h.r12; r15 = h.r15; gs = h.gs };
  stack = λ r v h. record { rcx = h.rcx; r12 = h.r12; r15 = h.r15; gs = h.gs };
}

-- On x64, for a guest whose own code keeps the reserved registers: a cloned thread begins with the
-- registers of its parent at the call, but for a result of 0, the stack that was asked for, the
-- reserved registers, fs and the vector registers of the host, and 0 in rcx, r12 and r15, whatever
-- the parent has there.
pub x64_clone_lem :
    (at page : ℕ) (parent : Running operations) (ctxp sys : Ptr) (sp tp stack : ℕ)
    (host : Registers)
    → Runs operations laws at page parent
    → (lfi_ctx_run operations
        (cloned_context operations (saved_context operations parent) ctxp sys sp tp)
        host
        stack).cpu
      ≡ record parent.cpu {
        rax = 0;
        rsp = sp;
        rcx = 0;
        r12 = 0;
        r13 = page;
        r14 = at;
        r15 = 0;
        fs = host.fs;
        gs = at;
        xmm = host.xmm;
      }
unfolding lfi_ctx_run cloned_context fill
x64_clone_lem at page parent ctxp sys sp tp stack host r =
    let stale = Runs-saved operations laws at page (IsStale at) (IsStale-IsKept at page) parent r in
    let reserved = (Runs-Confined operations laws at page parent r).saved in
    λ i. record parent.cpu {
      rax = 0;
      rsp = sp;
      rcx = stale.rcx i;
      r12 = stale.r12 i;
      r13 = reserved.sys_there i;
      r14 = reserved.base_there i;
      r15 = stale.r15 i;
      fs = host.fs;
      gs = stale.gs i;
      xmm = host.xmm;
    }
