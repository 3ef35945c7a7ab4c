-- ===== src/Tests/Perfs.antt =====
-- The map of a file with one symbol table, of which libelf reads two symbols of three.
use libtux.Base.{
  ℕ, zero, suc, ◌^◌, ◌<◌, ◌≡◌, ◌==◌, refl, subst, true, Option, none, some, List, [], ◌∷◌, length,
  arith, if◌then◌else◌,
}
use libtux.Perf.{
  SectionHeader, Symbol, LibElf, or_no_name, perf_output_jit_interface_file, line, hex, digits,
  strip,
}
use libtux.Perf.Lines.{read_map, IsName}
use libtux.Perf.Whole.{IsReadable, IsTable, entries, perf_output-reads}

abbrev symbol : ℕ → Option Symbol
symbol zero = some (record { st_name = 1; st_value = 4096; st_size = 16 })
symbol (suc zero) = none
symbol (suc (suc zero)) = some (record { st_name = 0; st_value = 8192; st_size = 0 })
symbol (suc (suc (suc i))) = none

abbrev name : ℕ → Option (List ℕ)
name i = if i == 1 then some (102 ∷ 110 ∷ []) else none

abbrev table : SectionHeader
table = record { sh_type = 2; sh_size = 72; sh_entsize = 24; sh_link = 1 }

abbrev lib : LibElf
lib = record {
  File = ℕ;
  Section = ℕ;
  Data = ℕ;
  elf_memory = λ buffer. some 0;
  elf_version = true;
  elf_getshdrstrndx = λ e. true;
  sections = λ e. 0 ∷ [];
  gelf_getshdr = λ s. some table;
  elf_getdata = λ s. some 0;
  gelf_getsym = λ d i. symbol i;
  elf_strptr = λ e link i. name i;
}

abbrev IsFit : Option Symbol → Type 0
IsFit none = Unit
IsFit (some s) = (s.st_size < 2 ^ 64) × IsName (or_no_name (name s.st_name))

symbol-IsFit : (i : ℕ) → IsFit (symbol i)
symbol-IsFit zero = ground arith
symbol-IsFit (suc zero) = tt
symbol-IsFit (suc (suc zero)) = ground arith
symbol-IsFit (suc (suc (suc i))) = tt

table-IsTable : IsTable lib 0 4294967296 table 0
table-IsTable = record { sized = ground arith; symbols = λ i s e. subst IsFit e (symbol-IsFit i) }

table-IsReadable : IsReadable lib 0 4294967296 0
table-IsReadable = record { header = table; there = refl; table = λ is. (0, refl, table-IsTable) }

perf_output-reads_example :
    (text : List ℕ) × (perf_output_jit_interface_file lib true [] 4294967296 ≡ some (0, some text))
    × (read_map (length (entries lib 0 4294967296 (0 ∷ []))) text
        ≡ entries lib 0 4294967296 (0 ∷ []))
perf_output-reads_example =
    perf_output-reads lib 0 [] 4294967296 refl refl refl (table-IsReadable, tt)

-- "0000000000001000 00000010 fn\n"
one_line :
    line 4096 16 (102 ∷ 110 ∷ [])
    ≡ 48 ∷ 48 ∷ 48 ∷ 48 ∷ 48 ∷ 48 ∷ 48 ∷ 48 ∷ 48 ∷ 48 ∷ 48 ∷ 48 ∷ 49 ∷ 48 ∷ 48 ∷ 48 ∷ 32 ∷ 48 ∷ 48
      ∷ 48 ∷ 48 ∷ 48 ∷ 48 ∷ 49 ∷ 48 ∷ 32 ∷ 102 ∷ 110 ∷ 10 ∷ []
unfolding line hex strip digits
one_line = refl
