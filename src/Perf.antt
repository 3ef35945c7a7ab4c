-- ===== src/Perf.antt =====
-- src/perf.c, as it is built with libelf: the map of a program's symbols for a profiler.
pub mod Hex
pub mod Lines
pub mod Whole
use libtux.Base.{
  ℕ, zero, suc, ◌+◌, ◌-◌, ◌*◌, ◌/◌, ◌%◌, ◌^◌, ◌==◌, Bool, not, List, [], ◌∷◌, ◌++◌, Option, none,
  some, if◌then◌else◌, ltb,
}
use libtux.Align.{word_mod}

-- GElf_Shdr and GElf_Sym, as far as they are read
pub record SectionHeader : Type 0 where
  pub sh_type : ℕ
  pub sh_size : ℕ
  pub sh_entsize : ℕ
  pub sh_link : ℕ

pub record Symbol : Type 0 where
  pub st_name : ℕ
  pub st_value : ℕ
  pub st_size : ℕ

-- What is called of libelf, for a file that it has opened; `sections` are those that elf_nextscn
-- gives before its NULL.
pub record LibElf : Type 1 where
  pub File : Type 0
  pub Section : Type 0
  pub Data : Type 0
  pub elf_memory : List ℕ → Option File
  pub elf_version : Bool
  pub elf_getshdrstrndx : File → Bool
  pub sections : File → List Section
  pub gelf_getshdr : Section → Option SectionHeader
  pub elf_getdata : Section → Option Data
  pub gelf_getsym : Data → ℕ → Option Symbol
  pub elf_strptr : File → ℕ → ℕ → Option (List ℕ)

-- SHT_SYMTAB
abbrev pub sht_symtab : ℕ
sht_symtab = 2

abbrev pub digit : ℕ → ℕ
digit d = if ltb d 10 then 48 + d else 87 + d

-- The `k` last hexadecimal digits.
unfoldable pub digits : ℕ → ℕ → List ℕ
digits zero n = []
digits (suc k) n = digits k (n / 16) ++ digit (n % 16) ∷ []

-- At most `k` zeros at the front go.
unfoldable pub strip : ℕ → List ℕ → List ℕ
strip zero ds = ds
strip (suc k) [] = []
strip (suc k) (d ∷ ds) = let rest = strip k ds in if d == 48 then rest else d ∷ ds

-- printf of an unsigned long as %0<width>lx
unfoldable pub hex : ℕ → ℕ → List ℕ
hex width n = strip (16 - width) (digits 16 n)

-- "<no name>"
abbrev pub no_name : List ℕ
no_name = 60 ∷ 110 ∷ 111 ∷ 32 ∷ 110 ∷ 97 ∷ 109 ∷ 101 ∷ 62 ∷ []

abbrev pub or_no_name : Option (List ℕ) → List ℕ
or_no_name none = no_name
or_no_name (some name) = name

-- "%016lx %08lx %s\n"
unfoldable pub line : ℕ → ℕ → List ℕ → List ℕ
line address size name = hex 16 address ++ 32 ∷ hex 8 size ++ 32 ∷ name ++ 10 ∷ []

-- How the loop over sections ends, with what was written.
pub data Written : Type 0 where
  whole : List ℕ → Written
  stopped : List ℕ → Written

module _ (lib : LibElf) (e : lib.File) (offset : ℕ) where
  abbrev pub symbol_line : SectionHeader → Option Symbol → List ℕ
  symbol_line shdr none = []
  symbol_line shdr (some s) =
      line ((s.st_value + offset) % word_mod) s.st_size
        (or_no_name (lib.elf_strptr e shdr.sh_link s.st_name))

  -- The loop over the symbols from `i` on.
  unfoldable pub symbol_loop : ℕ → ℕ → lib.Data → SectionHeader → List ℕ
  symbol_loop zero i data_ shdr = []
  symbol_loop (suc n) i data_ shdr =
      symbol_line shdr (lib.gelf_getsym data_ i) ++ symbol_loop n (suc i) data_ shdr

  abbrev pub in_front : List ℕ → Option Written → Option Written
  in_front text none = none
  in_front text (some (whole rest)) = some (whole (text ++ rest))
  in_front text (some (stopped rest)) = some (stopped (text ++ rest))

  -- One section, with what the others do; `none` for a division by zero.
  unfoldable pub section : lib.Section → Option Written → Option Written
  section scn rest = elim (lib.gelf_getshdr scn) [
    | none ↦ some (stopped [])
    | some shdr ↦ if not (shdr.sh_type == sht_symtab) then rest else elim (lib.elf_getdata scn) [
      | none ↦ some (stopped [])
      | some data_ ↦
          if shdr.sh_entsize == 0
          then none
          else in_front (symbol_loop (shdr.sh_size / shdr.sh_entsize) 0 data_ shdr) rest
    ]
  ]

  unfoldable pub section_loop : List lib.Section → Option Written
  section_loop [] = some (whole [])
  section_loop (scn ∷ scns) = section scn (section_loop scns)

-- The result, and the file if it was opened.
abbrev pub Output : Type 0
Output = ℕ × Option (List ℕ)

abbrev pub output_of : Option Written → Option Output
output_of none = none
output_of (some (whole text)) = some (0, some text)
output_of (some (stopped text)) = some (1, some text)

-- With the file open: what elf_version and elf_getshdrstrndx say, and what the loop does.
abbrev pub with_map_open : Bool → Bool → Option Written → Option Output
with_map_open version strings o =
    if not version
    then some (1, some [])
    else if not strings
    then some (1, some [])
    else output_of o

-- `opens` says whether fopen succeeds; `none` for a division by zero.
unfoldable pub perf_output_jit_interface_file : LibElf → Bool → List ℕ → ℕ → Option Output
perf_output_jit_interface_file lib opens buffer offset = elim (lib.elf_memory buffer) [
  | none ↦ some (1, none)
  | some e ↦
      if not opens
      then some (1, none)
      else with_map_open lib.elf_version (lib.elf_getshdrstrndx e)
          (section_loop lib e offset (lib.sections e))
]
