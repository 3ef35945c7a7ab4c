-- ===== src/Process/Create.antt =====
-- procnewfile, procfile and procsetup of src/proc.c, and lfi_proc_init: a process from a program.
use libtux.Base.{
  ℕ, ◌+◌, ◌-◌, ◌%◌, ◌==◌, Bool, true, List, [], ◌∷◌, Option, none, some, if◌then◌else◌, pos, int_eq,
  replicate,
}
use libtux.World.{
  null, Call, FilePath, AddrSpace, Proc, Tux, fault, Cmd, ◌>>=◌, ◌>>◌, pure, ask, modify,
}
use libtux.Align.{word_mod}
use libtux.Types.Prot
use libtux.Host.{malloc}
use libtux.AddrSpace.{PlatOptions, as_new, as_free, as_mapat, failed}
use libtux.Elf.Buf.{Buf, bufreadfile}
use libtux.Elf.Load.{mapanon}
use libtux.Elf.Program.{LoadInfo, elfload, elfinterp}
use libtux.Process.Stack.{stacksetup}
use libtux.Syscalls.Mem.{brkmaxsize}
use libtux.Fd.{nofile, fdinit}
use libtux.Context.{lfi_ctx_new}
use libtux.Threads.{nexttid}

-- The registers that a new context is given: where it starts, and its stack.
pub record Entry : Type 0 where
  pub pc : ℕ
  pub sp : ℕ

-- The break begins behind what was loaded, with nothing in it.
abbrev pub set_break : ℕ → Cmd (Unit {0})
set_break lastva = modify (λ w. record w { proc = record w.proc { brkbase = lastva; brksize = 0 } })

-- The dynamic linker is entered if there is one. The region of the break is reserved, without access.
unfoldable pub procsetup : Bool → Buf → Buf → List (List ℕ) → Cmd (Option Entry)
procsetup safe prog interp args = do
  loaded ← elfload safe prog interp
  elim loaded [
    | none ↦ pure none
    | some info ↦ λ w.
        (do
          stack ← stacksetup w.proc.p_as w.proc.tux.opts.pagesize args info
          elim stack [
            | none ↦ pure none
            | some sp ↦ do
              set_break info.lastva
              region ← as_mapat w.proc.p_as info.lastva brkmaxsize Prot.nothing mapanon null (pos 0)
              if region == failed
                  then pure none
                  else pure (
                      some (record {
                        pc = if interp.ptr == null then info.elfentry else info.ldentry;
                        sp = sp;
                      }))
          ])
          w
  ]

-- The bytes before the first NUL; reading on behind the last byte is a fault.
unfoldable pub c_path : List ℕ → Option FilePath
c_path [] = none
c_path (b ∷ bs) =
    let rest = c_path bs in
    if b == 0 then some [] else elim rest [ none ↦ none | some p ↦ some (b ∷ p) ]

-- The file of the dynamic linker. A relative name is ignored.
unfoldable pub read_interp : Option (List ℕ) → Cmd (Option Buf)
read_interp none = pure (some (record { ptr = null; size = 0 }))
read_interp (some bs) = elim (c_path bs) [
  | none ↦ λ w. fault
  | some path ↦ do
    absolute ← ask (Call.path_is_absolute path)
    if int_eq absolute.ret (pos 0)
        then pure (some (record { ptr = null; size = 0 }))
        else do buf ← bufreadfile path; pure (if buf.ptr == null then none else some buf)
]

unfoldable pub procfile : Bool → Buf → List (List ℕ) → Cmd (Option Entry)
procfile safe prog args = do
  name ← elfinterp prog
  interp ← read_interp name
  elim interp [ none ↦ pure none | some buf ↦ procsetup safe prog buf args ]

-- A process with nothing in it.
abbrev pub empty_proc : AddrSpace → Tux → Proc
empty_proc space tux = record {
  p_as = space;
  brkbase = 0;
  brksize = 0;
  files = replicate nofile null;
  cwd_file = null;
  cwd_fd = null;
  tux = tux;
}

-- procnewempty: the memory of the process and its first thread, with a number.
unfoldable pub procnewempty : Cmd (Option ℕ)
procnewempty = do
  proc ← malloc 1264
  if proc == null
      then pure none
      else do p ← malloc 40; if p == null then pure none else do tid ← nexttid; pure (some tid)

abbrev pub install_proc : Proc → ℕ → Cmd (Unit {0})
install_proc p n =
    modify (λ w. record w {
      proc = p;
      thread = record { tid = n; ctid = 0; tp = 0; sp = 0; result = 0 };
    })

-- The program is loaded before the table of descriptors is filled. What fails once there is a space
-- comes to lfi_as_free.
unfoldable pub procnewfile : PlatOptions → Bool → Tux → Buf → List (List ℕ) → Cmd (Option Entry)
procnewfile plat safe tux prog args = do
  thread ← procnewempty
  elim thread [
    | none ↦ pure none
    | some n ↦ do
      made ← as_new plat
      elim made [
        | none ↦ pure none
        | some space ↦ do
          ctx ← lfi_ctx_new plat space true
          if ctx == null then as_free else do
            install_proc (empty_proc space tux) n
            entry ← procfile safe prog args
            elim entry [ none ↦ as_free | some e ↦ do fdinit; pure (some e) ]
      ]
  ]

abbrev pub lfi_tux_proc_new : PlatOptions → Bool → Tux → Buf → List (List ℕ) → Cmd (Option Entry)
lfi_tux_proc_new plat safe tux prog args = procnewfile plat safe tux prog args

-- The registers for a context of the embedder's: the dynamic linker if its entry is not 0, and the
-- stack less 16 bytes.
unfoldable pub lfi_proc_init : LoadInfo → Entry
lfi_proc_init info = record {
  pc = if info.ldentry == 0 then info.elfentry else info.ldentry;
  sp = (info.stack + info.stacksize + word_mod - 16) % word_mod;
}
