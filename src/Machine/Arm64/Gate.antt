-- ===== src/Machine/Arm64/Gate.antt =====
-- The registers of a guest on arm64, each of them, over a call and at the start of a cloned thread.
use libtux.Base.{ℕ, ◌+◌, ◌*◌, ◌^◌, ◌<◌, ◌≡◌, refl, sym, ◌∙◌, some}
use libtux.World.{Ptr, World, ok}
use libtux.Threads.{returns}
use libtux.Dispatch.Handlers.{Setup}
use libtux.Dispatch.Arch.{arm64, arch_syshandle}
use libtux.Machine.Arm64.{
  restore_vector, Registers, Keeps, operations, laws, args, regs_return, save_partial,
  restore_partial, same_address,
}
use libtux.Machine.Gate.{
  in_thread, saved_context, cloned_context, lfi_ctx_run, fill, Running, Next, resume,
  lfi_tux_syscall, lfi_syscall_handler, lfi_syscall_entry,
}
use libtux.Machine.Runs.Saved.{IsKept, Runs-saved}
use libtux.Machine.Runs.{Runs, Runs-Confined}

-- On arm64, for a guest whose own code keeps the reserved registers, in a space at a multiple of four
-- GiB: a call from an address of the space that the handler answers gives the guest all its general
-- registers back, the return address included, but for the answer in x0; the flags and the vector
-- registers are as the handler left them.
pub arm64_call_lem :
    (page k o : ℕ) (t : Running operations) (after : Registers) (s : Setup) (w v : World)
    (answer : ℕ)
    → Runs operations laws (k * 2 ^ 32) page t
    → t.cpu.x30 ≡ k * 2 ^ 32 + o
    → o < 2 ^ 32
    → t.cpu.x30 < 2 ^ 64
    → Keeps t.cpu after
    → arch_syshandle arm64 s t.cpu.x8 (args t.cpu) (in_thread operations t w)
      ≡ ok (returns answer) v
    → (u : Running operations) × (lfi_syscall_entry operations
          (some (lfi_tux_syscall operations s))
          after
          t
          w
        ≡ ok (Next.again u) v)
      × (u.cpu ≡ record t.cpu {
        x0 = answer;
        nzcv = after.nzcv;
        fpsr = after.fpsr;
        pad = after.pad;
        vector = after.vector;
      })
unfolding lfi_syscall_entry lfi_tux_syscall lfi_syscall_handler resume
arm64_call_lem page k o t after s w v answer r inside small word keeps e =
    let c = Runs-Confined operations laws (k * 2 ^ 32) page t r in
    let regs = regs_return.write (save_partial t.cpu t.ctx.regs) answer in
    let back = same_address t.ctx.regs.x21 t.cpu.x30 k o c.saved.base_there inside small word in
    let base = c.saved.base_there ∙ sym c.running.base_there in
    (
      record t {
        ctx = record t.ctx { tp = v.thread.tp; regs = regs };
        cpu = restore_partial regs t.cpu after;
      },
      rw e refl,
      λ i. record t.cpu {
        x0 = answer;
        nzcv = after.nzcv;
        fpsr = after.fpsr;
        pad = after.pad;
        vector = after.vector;
        x19 = keeps.x19 i;
        x20 = keeps.x20 i;
        x21 = base i;
        x22 = keeps.x22 i;
        x23 = keeps.x23 i;
        x24 = keeps.x24 i;
        x25 = keeps.x25 i;
        x26 = keeps.x26 i;
        x27 = keeps.x27 i;
        x28 = keeps.x28 i;
        x29 = keeps.x29 i;
        x30 = back i;
      },
    )

-- What nothing ever writes to a context but its first value.
record IsStale (r : Registers) : Type 0 where
  x19 : r.x19 ≡ 0
  x20 : r.x20 ≡ 0
  x22 : r.x22 ≡ 0
  x23 : r.x23 ≡ 0
  x24 : r.x24 ≡ 0
  x26 : r.x26 ≡ 0
  x27 : r.x27 ≡ 0
  x28 : r.x28 ≡ 0
  x29 : r.x29 ≡ 0
  vector : r.vector ≡ (λ i. 0)

IsStale-IsKept : (at page : ℕ) → IsKept operations laws at page IsStale
IsStale-IsKept at page = record {
  first = λ entry sp. record {
    x19 = refl;
    x20 = refl;
    x22 = refl;
    x23 = refl;
    x24 = refl;
    x26 = refl;
    x27 = refl;
    x28 = refl;
    x29 = refl;
    vector = refl;
  };
  save = λ cpu r h. record {
    x19 = h.x19;
    x20 = h.x20;
    x22 = h.x22;
    x23 = h.x23;
    x24 = h.x24;
    x26 = h.x26;
    x27 = h.x27;
    x28 = h.x28;
    x29 = h.x29;
    vector = h.vector;
  };
  answer = λ r v h. record {
    x19 = h.x19;
    x20 = h.x20;
    x22 = h.x22;
    x23 = h.x23;
    x24 = h.x24;
    x26 = h.x26;
    x27 = h.x27;
    x28 = h.x28;
    x29 = h.x29;
    vector = h.vector;
  };
  stack = λ r v h. record {
    x19 = h.x19;
    x20 = h.x20;
    x22 = h.x22;
    x23 = h.x23;
    x24 = h.x24;
    x26 = h.x26;
    x27 = h.x27;
    x28 = h.x28;
    x29 = h.x29;
    vector = h.vector;
  };
}

-- On arm64, for a guest whose own code keeps the reserved registers: a cloned thread begins with
-- the registers of its parent at the call, but for a result of 0, the stack that was asked for,
-- the reserved registers, the host's flags, and 0 in x19 to x29, less the reserved ones, and in
-- the vector registers, whatever the parent has there.
pub arm64_clone_lem :
    (at page : ℕ) (parent : Running operations) (ctxp sys : Ptr) (sp tp stack : ℕ)
    (host : Registers)
    → Runs operations laws at page parent
    → (lfi_ctx_run operations
        (cloned_context operations (saved_context operations parent) ctxp sys sp tp)
        host
        stack).cpu
      ≡ record parent.cpu {
        x0 = 0;
        sp = sp;
        x19 = 0;
        x20 = 0;
        x21 = at;
        x22 = 0;
        x23 = 0;
        x24 = 0;
        x25 = page;
        x26 = 0;
        x27 = 0;
        x28 = 0;
        x29 = 0;
        nzcv = host.nzcv;
        fpsr = host.fpsr;
        pad = host.pad;
        vector = restore_vector (λ i. 0);
      }
unfolding lfi_ctx_run cloned_context fill
arm64_clone_lem at page parent ctxp sys sp tp stack host r =
    let h = Runs-saved operations laws at page IsStale (IsStale-IsKept at page) parent r in
    let reserved = (Runs-Confined operations laws at page parent r).saved in
    λ i. record parent.cpu {
      x0 = 0;
      sp = sp;
      x19 = h.x19 i;
      x20 = h.x20 i;
      x21 = reserved.base_there i;
      x22 = h.x22 i;
      x23 = h.x23 i;
      x24 = h.x24 i;
      x25 = reserved.sys_there i;
      x26 = h.x26 i;
      x27 = h.x27 i;
      x28 = h.x28 i;
      x29 = h.x29 i;
      nzcv = host.nzcv;
      fpsr = host.fpsr;
      pad = host.pad;
      vector = restore_vector (h.vector i);
    }
