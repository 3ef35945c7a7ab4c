-- ===== src/Machine/Arm64.antt =====
-- arm64: src/include/lfi_arch.h, src/arch/arm64/regs.c, src/pal/arch/arm64/regs.c, regs.h and
-- runtime.S, as on Linux.
pub mod Gate
use libtux.Base.{
  ℕ, if◌then◌else◌, leb, ltb, ◌&&◌, ◌+◌, ◌*◌, ◌%◌, ◌^◌, ◌<◌, ◌≡◌, refl, sym, ◌∙◌, arith,
}
use libtux.Align.{word_mod}
use libtux.Dispatch.Arch.{arm64}
use libtux.Dispatch.Handlers.{Args}
use libtux.Machine.{Slot, Operations, Laws, Machine}

pub record Registers : Type 0 where
  pub x0 : ℕ
  pub x1 : ℕ
  pub x2 : ℕ
  pub x3 : ℕ
  pub x4 : ℕ
  pub x5 : ℕ
  pub x6 : ℕ
  pub x7 : ℕ
  pub x8 : ℕ
  pub x9 : ℕ
  pub x10 : ℕ
  pub x11 : ℕ
  pub x12 : ℕ
  pub x13 : ℕ
  pub x14 : ℕ
  pub x15 : ℕ
  pub x16 : ℕ
  pub x17 : ℕ
  pub x18 : ℕ
  pub x19 : ℕ
  pub x20 : ℕ
  pub x21 : ℕ
  pub x22 : ℕ
  pub x23 : ℕ
  pub x24 : ℕ
  pub x25 : ℕ
  pub x26 : ℕ
  pub x27 : ℕ
  pub x28 : ℕ
  pub x29 : ℕ
  pub x30 : ℕ
  pub sp : ℕ
  pub nzcv : ℕ
  pub fpsr : ℕ
  pub pad : ℕ
  pub vector : ℕ → ℕ

abbrev pub zeroed : Registers
zeroed = record {
  x0 = 0;
  x1 = 0;
  x2 = 0;
  x3 = 0;
  x4 = 0;
  x5 = 0;
  x6 = 0;
  x7 = 0;
  x8 = 0;
  x9 = 0;
  x10 = 0;
  x11 = 0;
  x12 = 0;
  x13 = 0;
  x14 = 0;
  x15 = 0;
  x16 = 0;
  x17 = 0;
  x18 = 0;
  x19 = 0;
  x20 = 0;
  x21 = 0;
  x22 = 0;
  x23 = 0;
  x24 = 0;
  x25 = 0;
  x26 = 0;
  x27 = 0;
  x28 = 0;
  x29 = 0;
  x30 = 0;
  sp = 0;
  nzcv = 0;
  fpsr = 0;
  pad = 0;
  vector = λ i. 0;
}

-- x21 is REG_BASE, x18 REG_ADDR, x25 REG_SYS.
abbrev pub lfi_regs_init : Registers → ℕ → ℕ → Registers
lfi_regs_init regs base sys = record regs {
  x21 = base;
  x18 = base;
  sp = base;
  x30 = base;
  x25 = sys;
}

abbrev pub regs_init : Registers → ℕ → ℕ → Registers
regs_init regs entry sp = record regs { sp = sp; x30 = entry }

abbrev pub regs_return : Slot Registers
regs_return = record { read = λ r. r.x0; write = λ r v. record r { x0 = v } }

abbrev pub regs_sp : Slot Registers
regs_sp = record { read = λ r. r.sp; write = λ r v. record r { sp = v } }

-- What arch_syshandle takes its arguments from.
abbrev pub args : Registers → Args
args r = record { a0 = r.x0; a1 = r.x1; a2 = r.x2; a3 = r.x3; a4 = r.x4; a5 = r.x5 }

-- The vector registers, of two words each: 8 to 15 are read from an offset of 288, one word behind
-- the beginning of `vector`, and the others become 0.
abbrev pub restore_vector : (ℕ → ℕ) → ℕ → ℕ
restore_vector v i = if leb 16 i && ltb i 32 then v (i + 1) else 0

-- lfi_restore_regs: all but the flags. It returns to x30.
abbrev pub restore_regs : Registers → Registers → Registers
restore_regs r host = record r {
  nzcv = host.nzcv;
  fpsr = host.fpsr;
  pad = host.pad;
  vector = restore_vector r.vector;
}

-- SAVE_PARTIAL_REGS: not x19 to x29. REG_BASE leads to the context by then.
abbrev pub save_partial : Registers → Registers → Registers
save_partial cpu r = record r {
  x0 = cpu.x0;
  x1 = cpu.x1;
  x2 = cpu.x2;
  x3 = cpu.x3;
  x4 = cpu.x4;
  x5 = cpu.x5;
  x6 = cpu.x6;
  x7 = cpu.x7;
  x8 = cpu.x8;
  x9 = cpu.x9;
  x10 = cpu.x10;
  x11 = cpu.x11;
  x12 = cpu.x12;
  x13 = cpu.x13;
  x14 = cpu.x14;
  x15 = cpu.x15;
  x16 = cpu.x16;
  x17 = cpu.x17;
  x18 = cpu.x18;
  x30 = cpu.x30;
  sp = cpu.sp;
}

-- lfi_restore_partial_regs: REG_BASE comes from the context, and the return address is put in the
-- space.
abbrev pub restore_partial : Registers → Registers → Registers → Registers
restore_partial r cpu left = record left {
  x0 = r.x0;
  x1 = r.x1;
  x2 = r.x2;
  x3 = r.x3;
  x4 = r.x4;
  x5 = r.x5;
  x6 = r.x6;
  x7 = r.x7;
  x8 = r.x8;
  x9 = r.x9;
  x10 = r.x10;
  x11 = r.x11;
  x12 = r.x12;
  x13 = r.x13;
  x14 = r.x14;
  x15 = r.x15;
  x16 = r.x16;
  x17 = r.x17;
  x18 = r.x18;
  x21 = r.x21;
  sp = r.sp;
  x30 = (r.x21 + r.x30 % 2 ^ 32) % word_mod;
}

-- The thread pointer comes in the register of a result.
abbrev pub lfi_get_tp : ℕ → Registers → Registers
lfi_get_tp tp cpu = record cpu { x0 = tp; x30 = (cpu.x21 + cpu.x30 % 2 ^ 32) % word_mod }

-- It is taken from there, and REG_BASE, which led to the context meanwhile, is loaded again.
abbrev pub lfi_set_tp : Registers → Registers → Registers
lfi_set_tp r cpu = record cpu { x21 = r.x21; x30 = (r.x21 + cpu.x30 % 2 ^ 32) % word_mod }

-- The calling convention of a C function, for the general registers but x21.
pub record Keeps (cpu left : Registers) : Type 0 where
  pub x19 : left.x19 ≡ cpu.x19
  pub x20 : left.x20 ≡ cpu.x20
  pub x22 : left.x22 ≡ cpu.x22
  pub x23 : left.x23 ≡ cpu.x23
  pub x24 : left.x24 ≡ cpu.x24
  pub x25 : left.x25 ≡ cpu.x25
  pub x26 : left.x26 ≡ cpu.x26
  pub x27 : left.x27 ≡ cpu.x27
  pub x28 : left.x28 ≡ cpu.x28
  pub x29 : left.x29 ≡ cpu.x29

abbrev pub operations : Operations
operations = record {
  arch = arm64;
  Registers = Registers;
  zeroed = zeroed;
  lfi_regs_init = lfi_regs_init;
  regs_init = regs_init;
  regs_return = regs_return;
  regs_sp = regs_sp;
  sysno = λ r. r.x8;
  args = args;
  restore_regs = restore_regs;
  save_partial = save_partial;
  restore_partial = restore_partial;
  get_tp = lfi_get_tp;
  set_tp = lfi_set_tp;
  base = λ r. r.x21;
  sys = λ r. r.x25;
  pc = λ r. r.x30;
  Keeps = Keeps;
}

-- An address of the space, put in the space again.
pub same_address :
    (base pc k o : ℕ)
    → base ≡ k * 2 ^ 32
    → pc ≡ k * 2 ^ 32 + o
    → o < 2 ^ 32
    → pc < 2 ^ 64
    → (base + pc % 2 ^ 32) % word_mod ≡ pc
same_address base pc k o b p small word = omega (arith, b, p, small, word)

pub laws : Laws operations
laws = record {
  init-IsReserved = λ r at page. record { base_there = refl; sys_there = refl };
  begin-IsReserved =
      λ r at page entry sp h. record { base_there = h.base_there; sys_there = h.sys_there };
  begin_lem = λ r entry sp. (refl, refl);
  return-IsReserved =
      λ r at page v h. record { base_there = h.base_there; sys_there = h.sys_there };
  sp-IsReserved = λ r at page v h. record { base_there = h.base_there; sys_there = h.sys_there };
  started_lem = λ r sp. (refl, refl, refl);
  entry-IsReserved =
      λ r host at page h. record { base_there = h.base_there; sys_there = h.sys_there };
  entry_lem = λ r host. (refl, refl, refl);
  save-IsReserved =
      λ cpu r at page h. record { base_there = h.base_there; sys_there = h.sys_there };
  save_lem = λ cpu r. (refl, refl, refl);
  answer-IsReserved = λ cpu r left at page v h k keeps. record {
    base_there = k.base_there;
    sys_there = keeps.x25 ∙ h.sys_there;
  };
  answer_lem = λ cpu r left v k o b p small word.
      (refl, refl, same_address r.x21 cpu.x30 k o b p small word);
  get_tp-IsReserved =
      λ tp cpu at page h. record { base_there = h.base_there; sys_there = h.sys_there };
  get_tp_lem = λ tp cpu. refl;
  set_tp-IsReserved =
      λ cpu r at page h k. record { base_there = k.base_there; sys_there = h.sys_there };
}

abbrev pub machine : Machine
machine = record { operations = operations; laws = laws }
