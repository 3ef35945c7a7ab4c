-- ===== src/Elf/Whole.antt =====
-- lfi_proc_loadelf: the program, and its dynamic linker behind it.
use libtux.Base.{ℕ, ◌+◌, ◌*◌, ◌^◌, ◌<◌, ◌≡◌, Bool, List, Option, none, some}
use libtux.World.{AddrSpace, World, Cmd, pure, ◌>>=◌}
use libtux.Align.{word_mod}
use libtux.Elf.{ProgHeader, FileHeader, codemax, word_sub}
use libtux.Elf.Buf.{Buf}
use libtux.Elf.Load.{Loaded}
use libtux.Elf.Program.{LoadInfo, LoadOpts, load_interp, report}
use libtux.Elf.Apart.{LoadLinker, WholeResult}

module _ (safe : Bool) (space : AddrSpace) (k m : ℕ) (split : 2 ^ k * 2 ^ m ≡ word_mod)
    (base_pos : 0 < space.minaddr) (room : space.minaddr + 2 * codemax < word_mod) (stacksize : ℕ)
    (perf : Bool) (prog interp : Buf) (h h' : FileHeader) (ps ps' : List ProgHeader) where
  abbrev opts : LoadOpts
  opts = record { stacksize = stacksize; pagesize = 2 ^ k; perf = perf }

  abbrev Result : Option LoadInfo → Type 0
  Result = WholeResult space opts interp h h' ps ps'

  abbrev AfterProgram : ℕ → Option (Option Loaded) → Type 0
  AfterProgram = LoadLinker space opts interp h h' ps ps'

  abbrev lo : ℕ
  lo = space.minaddr

  abbrev hi : ℕ
  hi = space.minaddr + 2 * codemax

  module _ (stack : ℕ) (at : stack ≡ word_sub space.maxaddr stacksize) where
    abbrev continue_linker : Loaded → Option (Option Loaded) → Cmd (Option LoadInfo)
    continue_linker main o = elim o [ none ↦ pure none | some ld ↦ report opts prog stack main ld ]

    abbrev continue_program : Option Loaded → Cmd (Option LoadInfo)
    continue_program o = elim o [
      | none ↦ pure none
      | some main ↦ do
        linker ← load_interp safe space interp main.last (2 ^ k)
        continue_linker main linker
    ]
