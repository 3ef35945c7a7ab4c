-- ===== src/Machine.antt =====
-- The registers of a guest, and how it is entered and left: src/include/lfi_arch.h with regs.c of
-- src/arch and src/pal/arch, and the assembly of src/pal/arch. X64 and Arm64 fill the interface below,
-- Gate and what follows take it as a parameter.
pub mod X64
pub mod Arm64
pub mod Gate
pub mod Runs
use libtux.Base.{ℕ, ◌+◌, ◌*◌, ◌^◌, ◌<◌, ◌≡◌}
use libtux.Dispatch.Arch.{Arch}
use libtux.Dispatch.Handlers.{Args}

-- The register that a pointer of regs_return or regs_sp leads to.
pub record Slot (R : Type 0) : Type 0 where
  pub read : R → ℕ
  pub write : R → ℕ → R

-- What the code of one machine offers. The registers stand for those of a context and those of the
-- processor alike.
pub record Operations : Type 1 where
  pub arch : Arch
  pub Registers : Type 0
  pub zeroed : Registers
  pub lfi_regs_init : Registers → ℕ → ℕ → Registers
  pub regs_init : Registers → ℕ → ℕ → Registers
  pub regs_return : Slot Registers
  pub regs_sp : Slot Registers
  -- what arch_syshandle reads
  pub sysno : Registers → ℕ
  pub args : Registers → Args
  -- lfi_restore_regs: from a context to the processor
  pub restore_regs : Registers → Registers → Registers
  -- SAVE_PARTIAL_REGS: from the processor to a context
  pub save_partial : Registers → Registers → Registers
  -- lfi_restore_partial_regs, with the processor at the call and as the handler left it
  pub restore_partial : Registers → Registers → Registers → Registers
  -- lfi_get_tp and lfi_set_tp, which the guest enters without a call, with the thread pointer and with
  -- the registers of the context
  pub get_tp : ℕ → Registers → Registers
  pub set_tp : Registers → Registers → Registers
  -- the register of the space, that of the page of entry points, and where the guest goes on
  pub base : Registers → ℕ
  pub sys : Registers → ℕ
  pub pc : Registers → ℕ
  -- what the calling convention makes a C function keep
  pub Keeps : Registers → Registers → Type 0

module _ (m : Operations) where
  open m use {
    Registers, lfi_regs_init, regs_init, regs_return, regs_sp, restore_regs, save_partial,
    restore_partial, base, sys, pc, Keeps,
  }

  -- A context keeps the two reserved registers of its space.
  pub record IsReserved (at page : ℕ) (r : Registers) : Type 0 where
    pub base_there : base r ≡ at
    pub sys_there : sys r ≡ page

  -- The laws that a machine is used by.
  pub record Laws : Type 0 where
    pub init-IsReserved :
        (r : Registers) (at page : ℕ) → IsReserved at page (lfi_regs_init r at page)
    pub begin-IsReserved :
        (r : Registers) (at page entry sp : ℕ)
        → IsReserved at page r
        → IsReserved at page (regs_init r entry sp)
    pub begin_lem :
        (r : Registers) (entry sp : ℕ)
        → (pc (regs_init r entry sp) ≡ entry) × (regs_sp.read (regs_init r entry sp) ≡ sp)
    pub return-IsReserved :
        (r : Registers) (at page v : ℕ)
        → IsReserved at page r
        → IsReserved at page (regs_return.write r v)
    pub sp-IsReserved :
        (r : Registers) (at page v : ℕ)
        → IsReserved at page r
        → IsReserved at page (regs_sp.write r v)
    pub started_lem :
        (r : Registers) (sp : ℕ)
        → (regs_return.read (regs_sp.write (regs_return.write r 0) sp) ≡ 0)
          × (regs_sp.read (regs_sp.write (regs_return.write r 0) sp) ≡ sp)
          × (pc (regs_sp.write (regs_return.write r 0) sp) ≡ pc r)
    pub entry-IsReserved :
        (r host : Registers) (at page : ℕ)
        → IsReserved at page r
        → IsReserved at page (restore_regs r host)
    pub entry_lem :
        (r host : Registers)
        → (pc (restore_regs r host) ≡ pc r)
          × (regs_sp.read (restore_regs r host) ≡ regs_sp.read r)
          × (regs_return.read (restore_regs r host) ≡ regs_return.read r)
    pub save-IsReserved :
        (cpu r : Registers) (at page : ℕ)
        → IsReserved at page r
        → IsReserved at page (save_partial cpu r)
    pub save_lem :
        (cpu r : Registers)
        → (pc (save_partial cpu r) ≡ pc cpu)
          × (m.sysno (save_partial cpu r) ≡ m.sysno cpu)
          × (m.args (save_partial cpu r) ≡ m.args cpu)
    pub answer-IsReserved :
        (cpu r left : Registers) (at page v : ℕ)
        → IsReserved at page cpu
        → IsReserved at page r
        → Keeps cpu left
        → IsReserved at page (restore_partial (regs_return.write (save_partial cpu r) v) cpu left)
    pub answer_lem :
        (cpu r left : Registers) (v k o : ℕ)
        → base r ≡ k * 2 ^ 32
        → pc cpu ≡ k * 2 ^ 32 + o
        → o < 2 ^ 32
        → pc cpu < 2 ^ 64
        → (regs_return.read (restore_partial (regs_return.write (save_partial cpu r) v) cpu left)
            ≡ v)
          × (regs_sp.read (restore_partial (regs_return.write (save_partial cpu r) v) cpu left)
              ≡ regs_sp.read cpu)
          × (pc (restore_partial (regs_return.write (save_partial cpu r) v) cpu left) ≡ pc cpu)
    pub get_tp-IsReserved :
        (tp : ℕ) (cpu : Registers) (at page : ℕ)
        → IsReserved at page cpu
        → IsReserved at page (m.get_tp tp cpu)
    pub get_tp_lem : (tp : ℕ) (cpu : Registers) → regs_return.read (m.get_tp tp cpu) ≡ tp
    pub set_tp-IsReserved :
        (cpu r : Registers) (at page : ℕ)
        → IsReserved at page cpu
        → IsReserved at page r
        → IsReserved at page (m.set_tp r cpu)

-- A machine with its laws
pub record Machine : Type 1 where
  pub operations : Operations
  pub laws : Laws operations
