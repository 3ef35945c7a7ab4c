-- ===== src/Elf/Apart.antt =====
-- Files that lie outside of what the loader writes to, and segments that are loaded.
use libtux.Base.{
  ℕ, ◌+◌, ◌*◌, ◌≤◌, ◌<◌, ◌≡◌, ◌≢◌, ◌∙◌, ◌⊎◌, inl, inr, true, List, [], ◌∷◌, All, Option, none, some,
  arith,
}
use libtux.World.{null, AddrSpace, World}
use libtux.World.Frame.{Kept}
use libtux.World.Words.{bytes_at-Kept}
use libtux.Elf.{ProgHeader, FileHeader, codemax, word_sub, prog_header_size}
use libtux.Elf.Buf.{Buf}
use libtux.Elf.Load.{Loaded, is_loaded}
use libtux.Elf.Program.{LoadInfo, LoadOpts, info_of}
use libtux.Elf.Layout.{HasHeaders}
use libtux.Elf.Bounds.{NoWrap}
use libtux.Elf.Confined.{InFile}
use libtux.Elf.Loads.{IsLoaded}

-- A file with its headers, all of it outside of the range that is written to.
pub record IsFile (lo hi : ℕ) (mem : ℕ → ℕ) (buf : Buf) (h : FileHeader) (ps : List ProgHeader)
    : Type 0 where
  pub headers : HasHeaders mem buf h ps
  pub apart : (buf.ptr + buf.size ≤ lo) ⊎ (hi ≤ buf.ptr)

-- It stays one through writes to the range.
pub IsFile-Kept :
    (lo hi : ℕ) (u v : World) (buf : Buf) (h : FileHeader) (ps : List ProgHeader)
    → Kept lo hi u v
    → IsFile lo hi u.mem buf h ps
    → IsFile lo hi v.mem buf h ps
IsFile-Kept lo hi u v buf h ps kept file = record {
  headers = record {
    size_small = has.size_small;
    header_in = has.header_in;
    headers_in = has.headers_in;
    number = has.number;
    header_fits = has.header_fits;
    headers_fit = has.headers_fit;
    header_bytes =
        bytes_at-Kept lo hi (buf.ptr + 0) 64 u v kept (ground (arith, file.apart, has.header_in))
        ∙ has.header_bytes;
    headers_bytes =
        bytes_at-Kept lo hi (buf.ptr + h.phoff) (prog_header_size * h.phnum) u v kept
          (ground (arith, file.apart, has.headers_in))
        ∙ has.headers_bytes;
  };
  apart = file.apart;
}
  where
    has : HasHeaders u.mem buf h ps
    has = file.headers

-- One of the segments is loaded.
abbrev pub HasLoaded : List ProgHeader → Type 0
HasLoaded [] = ⊥
HasLoaded (p ∷ ps) = (is_loaded p ≡ true) ⊎ HasLoaded ps

-- Then the range is not empty.
pub last-IsLoaded :
    (base last : ℕ) (P : ProgHeader → Type 0) (ps : List ProgHeader)
    → HasLoaded ps
    → All (λ p. is_loaded p ≡ true → (base < last) × P p) ps
    → base < last
last-IsLoaded base last P [] none_ all = elim none_ [ ]
last-IsLoaded base last P (p ∷ ps) (inl e) (here, rest) = (here e).0
last-IsLoaded base last P (p ∷ ps) (inr more) (here, rest) = last-IsLoaded base last P ps more rest

-- A file that can be loaded: it is outside of the range, and its headers lie in it.
abbrev pub IsGood : AddrSpace → World → Buf → FileHeader → List ProgHeader → Type 0
IsGood space w buf e hs =
    IsFile space.minaddr (space.minaddr + 2 * codemax) w.mem buf e hs
    × All (λ p. NoWrap p × InFile buf p.offset p.filesz) hs

module _ (space : AddrSpace) (opts : LoadOpts) (interp : Buf) (h h' : FileHeader)
    (ps ps' : List ProgHeader) where
  -- The linker is behind the program, if there is one.
  abbrev pub LinkerResult : ℕ → Option Loaded → Type 0
  LinkerResult base none = interp.ptr ≡ null
  LinkerResult base (some ld) = (interp.ptr ≢ null) × IsLoaded space base h' ps' ld

  abbrev pub LoadLinker : ℕ → Option (Option Loaded) → Type 0
  LoadLinker base none = Unit
  LoadLinker base (some ld) = LinkerResult base ld

  -- What is reported of the files.
  abbrev pub WholeResult : Option LoadInfo → Type 0
  WholeResult none = Unit
  WholeResult (some info) =
      (main : Loaded) × (ld : Option Loaded) × (info
        ≡ info_of (word_sub space.maxaddr opts.stacksize) opts h main ld)
      × IsLoaded space space.minaddr h ps main
      × LinkerResult main.last ld
