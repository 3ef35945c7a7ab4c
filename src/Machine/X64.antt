-- ===== src/Machine/X64.antt =====
-- x64: src/include/lfi_arch.h, src/arch/x64/regs.c, src/pal/arch/x64/regs.c and runtime.S.
pub mod Gate
use libtux.Base.{ℕ, ◌≡◌, refl, sym, ◌∙◌, arith}
use libtux.Dispatch.Arch.{x64}
use libtux.Dispatch.Handlers.{Args}
use libtux.Machine.{Slot, Operations, Laws, Machine}

pub record Registers : Type 0 where
  pub rsp : ℕ
  pub rax : ℕ
  pub rcx : ℕ
  pub rdx : ℕ
  pub rbx : ℕ
  pub rbp : ℕ
  pub rsi : ℕ
  pub rdi : ℕ
  pub r8 : ℕ
  pub r9 : ℕ
  pub r10 : ℕ
  pub r11 : ℕ
  pub r12 : ℕ
  pub r13 : ℕ
  pub r14 : ℕ
  pub r15 : ℕ
  pub fs : ℕ
  pub gs : ℕ
  pub xmm : ℕ → ℕ

abbrev pub zeroed : Registers
zeroed = record {
  rsp = 0;
  rax = 0;
  rcx = 0;
  rdx = 0;
  rbx = 0;
  rbp = 0;
  rsi = 0;
  rdi = 0;
  r8 = 0;
  r9 = 0;
  r10 = 0;
  r11 = 0;
  r12 = 0;
  r13 = 0;
  r14 = 0;
  r15 = 0;
  fs = 0;
  gs = 0;
  xmm = λ i. 0;
}

abbrev pub lfi_regs_init : Registers → ℕ → ℕ → Registers
lfi_regs_init regs base sys = record regs { r14 = base; gs = base; rsp = base; r13 = sys }

abbrev pub regs_init : Registers → ℕ → ℕ → Registers
regs_init regs entry sp = record regs { rsp = sp; r11 = entry }

abbrev pub regs_return : Slot Registers
regs_return = record { read = λ r. r.rax; write = λ r v. record r { rax = v } }

abbrev pub regs_sp : Slot Registers
regs_sp = record { read = λ r. r.rsp; write = λ r v. record r { rsp = v } }

-- What arch_syshandle takes its arguments from.
abbrev pub args : Registers → Args
args r = record { a0 = r.rdi; a1 = r.rsi; a2 = r.rdx; a3 = r.r10; a4 = r.r8; a5 = r.r9 }

-- lfi_restore_regs: all but fs and the vector registers, which stay the host's; it jumps to r11.
abbrev pub restore_regs : Registers → Registers → Registers
restore_regs r host = record r { fs = host.fs; xmm = host.xmm }

-- SAVE_PARTIAL_REGS: not rcx, which leads to the context by then, nor r12 to r15.
abbrev pub save_partial : Registers → Registers → Registers
save_partial cpu r = record r {
  rsp = cpu.rsp;
  rax = cpu.rax;
  rdx = cpu.rdx;
  rbx = cpu.rbx;
  rbp = cpu.rbp;
  rsi = cpu.rsi;
  rdi = cpu.rdi;
  r8 = cpu.r8;
  r9 = cpu.r9;
  r10 = cpu.r10;
  r11 = cpu.r11;
}

-- lfi_restore_partial_regs, behind `popq %r11`: r11 is the return address that was pushed.
abbrev pub restore_partial : Registers → Registers → Registers → Registers
restore_partial r cpu left = record left {
  rsp = r.rsp;
  rax = r.rax;
  rcx = 0;
  rdx = r.rdx;
  rbx = r.rbx;
  rbp = r.rbp;
  rsi = r.rsi;
  rdi = r.rdi;
  r8 = r.r8;
  r9 = r.r9;
  r10 = r.r10;
  r11 = cpu.r11;
}

-- The thread pointer comes in the register of a result.
abbrev pub lfi_get_tp : ℕ → Registers → Registers
lfi_get_tp tp cpu = record cpu { rax = tp }

-- It is taken from there, and REG_BASE, which led to the context meanwhile, is loaded again.
abbrev pub lfi_set_tp : Registers → Registers → Registers
lfi_set_tp r cpu = record cpu { r14 = r.r14 }

-- The calling convention of a C function, and what only the kernel changes.
pub record Keeps (cpu left : Registers) : Type 0 where
  pub r12 : left.r12 ≡ cpu.r12
  pub r13 : left.r13 ≡ cpu.r13
  pub r14 : left.r14 ≡ cpu.r14
  pub r15 : left.r15 ≡ cpu.r15
  pub fs : left.fs ≡ cpu.fs
  pub gs : left.gs ≡ cpu.gs

abbrev pub operations : Operations
operations = record {
  arch = x64;
  Registers = Registers;
  zeroed = zeroed;
  lfi_regs_init = lfi_regs_init;
  regs_init = regs_init;
  regs_return = regs_return;
  regs_sp = regs_sp;
  sysno = λ r. r.rax;
  args = args;
  restore_regs = restore_regs;
  save_partial = save_partial;
  restore_partial = restore_partial;
  get_tp = lfi_get_tp;
  set_tp = lfi_set_tp;
  base = λ r. r.r14;
  sys = λ r. r.r13;
  pc = λ r. r.r11;
  Keeps = Keeps;
}

pub laws : Laws operations
laws = record {
  init-IsReserved = λ r at page. record { base_there = refl; sys_there = refl };
  begin-IsReserved =
      λ r at page entry sp h. record { base_there = h.base_there; sys_there = h.sys_there };
  begin_lem = λ r entry sp. (refl, refl);
  return-IsReserved =
      λ r at page v h. record { base_there = h.base_there; sys_there = h.sys_there };
  sp-IsReserved = λ r at page v h. record { base_there = h.base_there; sys_there = h.sys_there };
  started_lem = λ r sp. (refl, refl, refl);
  entry-IsReserved =
      λ r host at page h. record { base_there = h.base_there; sys_there = h.sys_there };
  entry_lem = λ r host. (refl, refl, refl);
  save-IsReserved =
      λ cpu r at page h. record { base_there = h.base_there; sys_there = h.sys_there };
  save_lem = λ cpu r. (refl, refl, refl);
  answer-IsReserved = λ cpu r left at page v h k keeps. record {
    base_there = keeps.r14 ∙ h.base_there;
    sys_there = keeps.r13 ∙ h.sys_there;
  };
  answer_lem = λ cpu r left v k o b p small word. (refl, refl, refl);
  get_tp-IsReserved =
      λ tp cpu at page h. record { base_there = h.base_there; sys_there = h.sys_there };
  get_tp_lem = λ tp cpu. refl;
  set_tp-IsReserved =
      λ cpu r at page h k. record { base_there = k.base_there; sys_there = h.sys_there };
}

abbrev pub machine : Machine
machine = record { operations = operations; laws = laws }
