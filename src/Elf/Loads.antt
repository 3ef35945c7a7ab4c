-- ===== src/Elf/Loads.antt =====
-- What becomes of a whole ELF file.
use libtux.Base.{
  ℕ, ◌+◌, ◌*◌, ◌%◌, ◌^◌, ◌≤◌, ◌<◌, ◌≡◌, Bool, true, List, All, Option, none, some, ◌==◌,
  if◌then◌else◌,
}
use libtux.World.{AddrSpace, World}
use libtux.Align.{word_mod}
use libtux.Elf.{ProgHeader, FileHeader, codemax, word_sub, elfcheck, et_dyn, et_exec}
use libtux.Elf.Buf.{Buf}
use libtux.Elf.Load.{Loading, Progress, Loaded, is_loaded}
use libtux.Elf.Bounds.{NoWrap, moved}
use libtux.Elf.Confined.{InFile}

-- The range of a loaded file, from `base`: each of its segments ends before `last`.
pub record IsLoaded (space : AddrSpace) (base : ℕ) (h : FileHeader) (ps : List ProgHeader)
    (ld : Loaded) : Type 0 where
  pub checked : elfcheck h ≡ true
  pub first_word : ld.first < word_mod
  pub ends : ld.last ≤ base + codemax
  pub covers :
      All
        (λ (p : ProgHeader).
          is_loaded p ≡ true
          → (base < ld.last)
            × (base + (p.vaddr + p.memsz)
                ≤ ld.last + moved (h.type == et_exec) (word_sub base space.base)))
        ps
  pub entry : ld.entry ≡ ((if h.type == et_dyn then base else space.base) + h.entry) % word_mod

-- Nothing for a file that is refused.
abbrev pub LoadResult : AddrSpace → ℕ → FileHeader → List ProgHeader → Option Loaded → Type 0
LoadResult space base h ps none = Unit
LoadResult space base h ps (some ld) = IsLoaded space base h ps ld

module _ (safe : Bool) (space : AddrSpace) (buf : Buf) (base k m : ℕ)
    (split : 2 ^ k * 2 ^ m ≡ word_mod) (base_pos : 0 < base) (room : base + codemax < word_mod)
    (h : FileHeader) (ps : List ProgHeader) where
  abbrev pub IsTameIn : ProgHeader → Type 0
  IsTameIn p = NoWrap p × InFile buf p.offset p.filesz

  -- What the loop over the program headers is given.
  abbrev l : Loading
  l = record {
    safe = safe;
    space = space;
    buf = buf;
    pagesize = 2 ^ k;
    type = h.type;
    elfbase = if h.type == et_dyn then base else space.base;
  }

  abbrev start : Progress
  start = record { base = base; first = 0; last = 0 }
