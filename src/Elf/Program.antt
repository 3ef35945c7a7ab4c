-- ===== src/Elf/Program.antt =====
-- A program and its dynamic linker: lfi_proc_loadelf and elfload of src/elfload.c, and elfinterp of
-- src/elfload.h.
use libtux.Base.{
  ℕ, ◌*◌, ◌==◌, Bool, not, List, [], ◌∷◌, Option, none, some, leb, if◌then◌else◌, length, pos,
  int_eq,
}
use libtux.World.{null, Call, AddrSpace, Cmd, ◌>>=◌, pure, ask, aborted}
use libtux.Host.{malloc}
use libtux.AddrSpace.{as_mapat, failed}
use libtux.Elf.{ProgHeader, FileHeader, word_sub, pt_interp}
use libtux.Elf.Buf.{Buf, bufget}
use libtux.Elf.Load.{Loaded, load, mapanon, read_write, read_header, read_prog_headers}

-- INTERP_MAX
abbrev pub interp_max : ℕ
interp_max = 1024

-- PHNUM_MAX
abbrev pub phnum_max : ℕ
phnum_max = 64

-- The bytes of one PT_INTERP segment.
unfoldable pub interp_bytes : Buf → ProgHeader → Cmd (Option (List ℕ))
interp_bytes prog p = if leb interp_max p.filesz then pure none else do
  interp ← malloc p.filesz
  if interp == null then pure none else do
    bs ← bufget prog p.filesz p.offset
    pure (if length bs == p.filesz then some bs else none)

-- The loop ends at the first such segment.
unfoldable pub interp_loop : Buf → List ProgHeader → Cmd (Option (List ℕ))
interp_loop prog [] = pure none
interp_loop prog (p ∷ ps) = if p.type == pt_interp then interp_bytes prog p else interp_loop prog ps

-- The bytes that the file names as its dynamic linker, which need not end in a NUL.
unfoldable pub elfinterp : Buf → Cmd (Option (List ℕ))
elfinterp prog = do
  header ← read_header prog
  elim header [
    | none ↦ pure none
    | some ehdr ↦ if leb phnum_max ehdr.phnum then pure none else do
      headers ← read_prog_headers prog ehdr
      elim headers [ none ↦ pure none | some phdrs ↦ interp_loop prog phdrs ]
  ]

-- `struct LFILoadInfo`
pub record LoadInfo : Type 0 where
  pub stack : ℕ
  pub stacksize : ℕ
  pub lastva : ℕ
  pub elfentry : ℕ
  pub ldentry : ℕ
  pub elfbase : ℕ
  pub ldbase : ℕ
  pub elfphoff : ℕ
  pub elfphnum : ℕ
  pub elfphentsize : ℕ

-- `struct LFILoadOpts`
pub record LoadOpts : Type 0 where
  pub stacksize : ℕ
  pub pagesize : ℕ
  pub perf : Bool

-- What the loader reports of the program alone, and of the program with its dynamic linker.
abbrev pub info_of : ℕ → LoadOpts → FileHeader → Loaded → Option Loaded → LoadInfo
info_of stack opts ehdr prog interp = record {
  stack = stack;
  stacksize = opts.stacksize;
  lastva = elim interp [ none ↦ prog.last | some ld ↦ ld.last ];
  elfentry = prog.entry;
  ldentry = elim interp [ none ↦ 0 | some ld ↦ ld.entry ];
  elfbase = prog.first;
  ldbase = elim interp [ none ↦ prog.first | some ld ↦ ld.first ];
  elfphoff = ehdr.phoff;
  elfphnum = ehdr.phnum;
  elfphentsize = ehdr.phentsize;
}

-- The dynamic linker goes behind the program, if there is one; `none` for a failure.
unfoldable pub load_interp : Bool → AddrSpace → Buf → ℕ → ℕ → Cmd (Option (Option Loaded))
load_interp safe space interp base pagesize = if interp.ptr == null then pure (some none) else do
  ld ← load safe space interp base pagesize
  pure (elim ld [ none ↦ none | some l ↦ some (some l) ])

-- The notes for perf, and whether they were written.
unfoldable pub perf_notes : Bool → Buf → ℕ → Cmd Bool
perf_notes perf prog first =
    if not perf
    then pure Bool.true
    else do a ← ask (Call.perf_notes prog.ptr prog.size first); pure (int_eq a.ret (pos 0))

-- The last steps of lfi_proc_loadelf, with both files in place.
unfoldable pub report : LoadOpts → Buf → ℕ → Loaded → Option Loaded → Cmd (Option LoadInfo)
report opts prog stack main interp = do
  noted ← perf_notes opts.perf prog main.first
  if not noted then pure none else do
    header ← read_header prog
    elim header [
      | none ↦ λ w. aborted
      | some ehdr ↦ pure (some (info_of stack opts ehdr main interp))
    ]

unfoldable pub lfi_proc_loadelf : Bool → AddrSpace → Buf → Buf → LoadOpts → Cmd (Option LoadInfo)
lfi_proc_loadelf safe space prog interp opts = do
  stack ←
      as_mapat space (word_sub space.maxaddr opts.stacksize) opts.stacksize read_write mapanon null
        (pos 0)
  if stack == failed then pure none else do
    program ← load safe space prog space.minaddr opts.pagesize
    elim program [
      | none ↦ pure none
      | some main ↦ do
        linker ← load_interp safe space interp main.last opts.pagesize
        elim linker [ none ↦ pure none | some ld ↦ report opts prog stack main ld ]
    ]

-- STACKSIZE
abbrev pub stacksize : ℕ
stacksize = 2 * 1024 * 1024

unfoldable pub elfload : Bool → Buf → Buf → Cmd (Option LoadInfo)
elfload safe prog interp w =
    let o = w.proc.tux.opts in
    lfi_proc_loadelf safe w.proc.p_as prog interp
      (record { stacksize = stacksize; pagesize = o.pagesize; perf = o.perf }) w
