-- ===== src/Elf/Load.antt =====
-- The loader of src/elfload.c: bufreadelfseg, load, lfi_proc_loadelf and elfload, and elfinterp of
-- src/elfload.h. The page size is not 0.
use libtux.Base.{
  ℕ, ◌+◌, ◌*◌, ◌%◌, ◌==◌, Bool, false, not, ◌&&◌, ◌||◌, List, [], ◌∷◌, Option, none, some, ltb, leb,
  if◌then◌else◌, length, replicate, pos, is_neg, bit_or,
}
use libtux.World.{Ptr, null, AddrSpace, Cmd, ◌>>=◌, ◌>>◌, pure, modify}
use libtux.World.Memory.{copy_to}
use libtux.Align.{word_mod, truncp}
use libtux.Types.{has}
use libtux.Types.Prot
use libtux.Types.Map
use libtux.Host.{malloc}
use libtux.AddrSpace.{as_mapat, as_mprotect, failed}
use libtux.Elf.{
  FileHeader, ProgHeader, Segment, file_header, prog_headers, file_header_size, prog_header_size,
  elfcheck, pflags, segment, word_sub, codemax, pt_load, et_dyn, et_exec,
}
use libtux.Elf.Buf.{Buf, bufget, bufread}

-- LFI_MAP_PRIVATE | LFI_MAP_ANONYMOUS
abbrev pub mapanon : ℕ
mapanon = bit_or Map.private Map.anonymous

abbrev pub read_write : ℕ
read_write = bit_or Prot.read Prot.write

-- `safe` is whether the build is one for x64 with TUX_SANITIZE_CODE.
unfoldable pub sanitize : Bool → Ptr → ℕ → ℕ → Cmd (Unit {0})
sanitize safe p sz prot =
    if has prot Prot.exec && safe
    then modify (λ w. record w { mem = copy_to w.mem p (replicate sz 0xcc) })
    else pure tt

unfoldable pub bufreadelfseg : Bool → AddrSpace → ℕ → ℕ → ℕ → ℕ → ℕ → ℕ → Buf → ℕ → Cmd Bool
bufreadelfseg safe space start offset stop p_offset filesz prot buf pagesize = do
  p ← as_mapat space start (word_sub stop start) read_write mapanon null (pos 0)
  if p == failed then pure false else do
    sanitize safe p pagesize prot
    sanitize safe (word_sub stop pagesize) pagesize prot
    n ← bufread buf ((start + offset) % word_mod) filesz p_offset
    if not (n == filesz)
        then pure false
        else do r ← as_mprotect space start (word_sub stop start) prot; pure (not (is_neg r))

-- What the loop over the program headers keeps.
pub record Progress : Type 0 where
  pub base : ℕ
  pub first : ℕ
  pub last : ℕ

-- A segment that is loaded: one of type PT_LOAD with room in memory.
abbrev pub is_loaded : ProgHeader → Bool
is_loaded p = p.type == pt_load && not (p.memsz == 0)

-- What a segment in place changes. `first` is found from the address before `delta` is taken off.
unfoldable pub advance : ℕ → ProgHeader → Segment → Progress → Progress
advance elfbase p s st =
    let start = (elfbase + truncp p.vaddr p.align) % word_mod in
    let base = if st.base == 0 then (st.base + s.start) % word_mod else st.base in
    let stop = (base + s.stop) % word_mod in
    record {
      base = base;
      first = if st.first == 0 || ltb start st.first then start else st.first;
      last = if ltb st.last stop then stop else st.last;
    }

-- What the loop does not change.
pub record Loading : Type 0 where
  pub safe : Bool
  pub space : AddrSpace
  pub buf : Buf
  pub pagesize : ℕ
  pub type : ℕ
  pub elfbase : ℕ

-- base - info.base
abbrev pub shift : Loading → Progress → ℕ
shift l st = word_sub st.base l.space.base

-- The file's part of one segment, put where it goes.
unfoldable pub place : Loading → Progress → ProgHeader → Segment → Cmd Bool
place l st p s =
    bufreadelfseg l.safe l.space ((st.base + s.start) % word_mod) s.offset
      ((st.base + s.stop) % word_mod) p.offset p.filesz (pflags p.flags) l.buf l.pagesize

unfoldable pub load_loop : Loading → List ProgHeader → Progress → Cmd (Option Progress)
load_loop l [] st = pure (some st)
load_loop l (p ∷ ps) st =
    if not (is_loaded p)
    then load_loop l ps st
    else elim (segment l.pagesize (l.type == et_exec) (shift l st) p) [
      | none ↦ pure none
      | some s ↦ do
        done ← place l st p s
        if done then load_loop l ps (advance l.elfbase p s st) else pure none
    ]

pub record Loaded : Type 0 where
  pub first : ℕ
  pub last : ℕ
  pub entry : ℕ

-- The file header, if the file is long enough.
unfoldable pub read_header : Buf → Cmd (Option FileHeader)
unfolding bufget file_header
read_header buf = do
  bs ← bufget buf file_header_size 0
  pure (if length bs == file_header_size then some (file_header bs) else none)

-- The program headers, likewise.
unfoldable pub read_prog_headers : Buf → FileHeader → Cmd (Option (List ProgHeader))
unfolding bufget prog_headers
read_prog_headers buf ehdr = do
  bs ← bufget buf (prog_header_size * ehdr.phnum) ehdr.phoff
  pure (
      if length bs == prog_header_size * ehdr.phnum
      then some (prog_headers ehdr.phnum bs)
      else none)

-- Where the program is entered, once it is loaded.
abbrev pub loaded : Loading → FileHeader → Progress → Loaded
loaded l ehdr st = record {
  first = st.first;
  last = st.last;
  entry = ((if l.type == et_dyn then st.base else l.space.base) + ehdr.entry) % word_mod;
}

-- The loop over the headers that were read.
unfoldable pub load_with :
    Bool → AddrSpace → Buf → ℕ → ℕ → FileHeader → List ProgHeader → Cmd (Option Loaded)
load_with safe space buf base pagesize ehdr phdrs = if leb codemax ehdr.entry then pure none else do
  let l : Loading = record {
    safe = safe;
    space = space;
    buf = buf;
    pagesize = pagesize;
    type = ehdr.type;
    elfbase = if ehdr.type == et_dyn then base else space.base;
  }
  st ← load_loop l phdrs (record { base = base; first = 0; last = 0 })
  pure (elim st [ none ↦ none | some st ↦ some (loaded l ehdr st) ])

unfoldable pub load : Bool → AddrSpace → Buf → ℕ → ℕ → Cmd (Option Loaded)
load safe space buf base pagesize = do
  header ← read_header buf
  elim header [
    | none ↦ pure none
    | some ehdr ↦ if not (elfcheck ehdr) then pure none else do
      phdr ← malloc (prog_header_size * ehdr.phnum)
      if phdr == null then pure none else do
        headers ← read_prog_headers buf ehdr
        elim headers [
          | none ↦ pure none
          | some phdrs ↦ load_with safe space buf base pagesize ehdr phdrs
        ]
  ]
