-- ===== src/Elf.antt =====
-- src/elfload.h and src/elfload.c: the headers of an ELF file, and what they say of its segments.
pub mod Buf
pub mod Load
pub mod Program
pub mod Layout
pub mod Bounds
pub mod Confined
pub mod Spans
pub mod Loads
pub mod Apart
pub mod Whole
pub mod Static
use libtux.World.Fields.{fields}
use libtux.Base.{
  ℕ, zero, suc, ◌+◌, ◌-◌, ◌*◌, ◌%◌, ◌==◌, Bool, true, false, ◌&&◌, ◌||◌, not, List, [], ◌∷◌, ◌++◌,
  Option, none, some, ltb, leb, if◌then◌else◌, get_or, bit_or, take, drop,
}
use libtux.World.Memory.{from_le, le_bytes}
use libtux.Align.{word_mod, truncp, ceilp}
use libtux.Types.{has}
use libtux.Types.Prot

-- `struct FileHeader`; the eleven bytes of `_elf` are one number.
pub record FileHeader : Type 0 where
  pub magic : ℕ
  pub width : ℕ
  pub elf_ : ℕ
  pub type : ℕ
  pub machine : ℕ
  pub version : ℕ
  pub entry : ℕ
  pub phoff : ℕ
  pub shoff : ℕ
  pub flags : ℕ
  pub ehsize : ℕ
  pub phentsize : ℕ
  pub phnum : ℕ
  pub shentsize : ℕ
  pub shnum : ℕ
  pub shstrndx : ℕ

-- `struct ProgHeader`
pub record ProgHeader : Type 0 where
  pub type : ℕ
  pub flags : ℕ
  pub offset : ℕ
  pub vaddr : ℕ
  pub paddr : ℕ
  pub filesz : ℕ
  pub memsz : ℕ
  pub align : ℕ

-- ELF_MAGIC and the values that the loader tests for.
abbrev pub elf_magic : ℕ
elf_magic = 0x464C457F

abbrev pub elfclass64 : ℕ
elfclass64 = 2

abbrev pub ev_current : ℕ
ev_current = 1

abbrev pub et_exec : ℕ
et_exec = 2

abbrev pub et_dyn : ℕ
et_dyn = 3

abbrev pub pt_load : ℕ
pt_load = 1

abbrev pub pt_interp : ℕ
pt_interp = 3

abbrev pub pf_x : ℕ
pf_x = 1

abbrev pub pf_w : ℕ
pf_w = 2

abbrev pub pf_r : ℕ
pf_r = 4

-- CODEMAX
abbrev pub codemax : ℕ
codemax = 1024 * 1024 * 1024

-- The widths of the fields in bytes; there is no padding between them.
abbrev pub file_header_widths : List ℕ
file_header_widths = 4 ∷ 1 ∷ 11 ∷ 2 ∷ 2 ∷ 4 ∷ 8 ∷ 8 ∷ 8 ∷ 4 ∷ 2 ∷ 2 ∷ 2 ∷ 2 ∷ 2 ∷ 2 ∷ []

abbrev pub prog_header_widths : List ℕ
prog_header_widths = 4 ∷ 4 ∷ 8 ∷ 8 ∷ 8 ∷ 8 ∷ 8 ∷ 8 ∷ []

-- sizeof
abbrev pub file_header_size : ℕ
file_header_size = 64

abbrev pub prog_header_size : ℕ
prog_header_size = 56

unfoldable pub file_header : List ℕ → FileHeader
file_header bs =
    let f = fields file_header_widths bs in
    record {
      magic = get_or f 0 0;
      width = get_or f 1 0;
      elf_ = get_or f 2 0;
      type = get_or f 3 0;
      machine = get_or f 4 0;
      version = get_or f 5 0;
      entry = get_or f 6 0;
      phoff = get_or f 7 0;
      shoff = get_or f 8 0;
      flags = get_or f 9 0;
      ehsize = get_or f 10 0;
      phentsize = get_or f 11 0;
      phnum = get_or f 12 0;
      shentsize = get_or f 13 0;
      shnum = get_or f 14 0;
      shstrndx = get_or f 15 0;
    }

unfoldable pub prog_header : List ℕ → ProgHeader
prog_header bs =
    let f = fields prog_header_widths bs in
    record {
      type = get_or f 0 0;
      flags = get_or f 1 0;
      offset = get_or f 2 0;
      vaddr = get_or f 3 0;
      paddr = get_or f 4 0;
      filesz = get_or f 5 0;
      memsz = get_or f 6 0;
      align = get_or f 7 0;
    }

-- An array of `n` program headers.
unfoldable pub prog_headers : ℕ → List ℕ → List ProgHeader
prog_headers zero bs = []
prog_headers (suc n) bs = prog_header bs ∷ prog_headers n (drop prog_header_size bs)

unfoldable pub elfcheck : FileHeader → Bool
elfcheck ehdr =
    ehdr.magic == elf_magic
    && (ehdr.width == elfclass64)
    && (ehdr.version == ev_current)
    && ((ehdr.type == et_dyn) || (ehdr.type == et_exec))

unfoldable pub pflags : ℕ → ℕ
pflags prot =
    bit_or
      (bit_or (if has prot pf_r then Prot.read else 0) (if has prot pf_w then Prot.write else 0))
      (if has prot pf_x then Prot.exec else 0)

-- Where a segment goes, from the base of the program, and how far into its first page it begins.
pub record Segment : Type 0 where
  pub start : ℕ
  pub stop : ℕ
  pub offset : ℕ

-- a - b, for words
abbrev pub word_sub : ℕ → ℕ → ℕ
word_sub a b = (a + word_mod - b) % word_mod

-- The checks of a header of type PT_LOAD. A program that is not relocatable has its addresses
-- `delta` too high.
unfoldable pub segment : ℕ → Bool → ℕ → ProgHeader → Option Segment
segment pagesize exec delta p =
    let start = truncp p.vaddr p.align in
    let stop = ceilp ((p.vaddr + p.memsz) % word_mod) p.align in
    if not (p.align % pagesize == 0)
    then none
    else if exec && ltb start delta
    then none
    else let s : Segment = record {
      start = if exec then word_sub start delta else start;
      stop = if exec then word_sub stop delta else stop;
      offset = word_sub p.vaddr start;
    } in
      if ltb p.memsz p.filesz
      then none
      else if leb s.stop s.start || leb codemax s.start || leb codemax s.stop
      then none
      else some s
