-- ===== src/Process/Born.antt =====
-- procnewfile of src/proc.c, from an engine that has just been made to a process that may run.
use libtux.Base.{
  ℕ, ◌+◌, ◌*◌, ◌^◌, ◌≤◌, ◌<◌, ◌≡◌, Bool, true, false, List, Option, none, some, All, ◌==◌, length,
  if◌then◌else◌,
}
use libtux.World.{Ptr, null, AddrSpace, TuxOptions, Tux, World, ok, Cmd, pure, ◌>>=◌, ◌>>◌}
use libtux.Align.{word_mod}
use libtux.AddrSpace.{PlatOptions, as_new, as_free}
use libtux.AddrSpace.Placed.{MapsWhereAsked}
use libtux.Context.{gb, lfi_ctx_new}
use libtux.Elf.{ProgHeader, FileHeader}
use libtux.Elf.Buf.{Buf}
use libtux.Elf.Program.{LoadOpts}
use libtux.Elf.Layout.{HasHeaders}
use libtux.Elf.Apart.{HasLoaded}
use libtux.Elf.Bounds.{NoWrap}
use libtux.Elf.Confined.{InFile}
use libtux.Elf.Static.{IsStatic}
use libtux.Fd.{fdinit}
use libtux.Guest.Good.{Good}
use libtux.Dispatch.Arch.{Arch}
use libtux.Dispatch.Handlers.{Setup}
use libtux.Dispatch.Lives.{Lives}
use libtux.Engine.Start.{Blank, engine, ready}
use libtux.Process.Create.{Entry, empty_proc, install_proc, procfile}
use libtux.Process.Begun.{IsBegun, Begun}
use libtux.Process.Space.{IsRoomy}

-- The buffer of no file.
abbrev pub no_file : Buf
no_file = record { ptr = null; size = 0 }

-- The steps of procnewfile, each with what it was given.
module _ (plat : PlatOptions) (safe : Bool) (tux : Tux) (prog : Buf) (args : List (List ℕ)) where
  abbrev with_entry : Option Entry → Cmd (Option Entry)
  with_entry o = elim o [ none ↦ as_free | some e ↦ do fdinit; pure (some e) ]

  abbrev with_context : ℕ → AddrSpace → Cmd (Option Entry)
  with_context n space = do
    install_proc (empty_proc space tux) n
    entry ← procfile safe prog args
    with_entry entry

  abbrev with_space : ℕ → Option AddrSpace → Cmd (Option Entry)
  with_space n o = elim o [
    | none ↦ pure none
    | some space ↦ do
      ctx ← lfi_ctx_new plat space true
      if ctx == null then as_free else with_context n space
  ]

  abbrev with_thread : Option ℕ → Cmd (Option Entry)
  with_thread o = elim o [ none ↦ pure none | some n ↦ do made ← as_new plat; with_space n made ]

module _ (load_opts : LoadOpts) (h : FileHeader) (ps : List ProgHeader) (args : List (List ℕ)) where
  -- A process that has begun, with the standard files.
  pub record IsBorn (e : Entry) (v : World) : Type 0 where
    pub space : AddrSpace
    pub small : space.maxaddr < word_mod
    pub before : World
    pub loaded_from : World
    pub begun : IsBegun space small load_opts no_file h h ps ps args loaded_from e before
    pub filled : fdinit before ≡ ok tt v
    pub good : Good v

  -- From a state `w`: NULL, with the process as it was, or a process that is born.
  abbrev pub Born : World → Option Entry → World → Type 0
  Born w none v = v.proc ≡ w.proc
  Born w (some e) v = IsBorn e v

module _ (safe : Bool) (w0 : World) (h0 h1 h2 : Ptr) (blank : Blank w0 h0 h1 h2)
    (options : TuxOptions) (off : options.fs_open ≡ false) (k m : ℕ)
    (split : 2 ^ k * 2 ^ m ≡ word_mod) (page : options.pagesize ≡ 2 ^ k) (small_page : 2 ^ k ≤ gb 1)
    (plat : PlatOptions) (size : plat.vmsize ≡ gb 4) (same_page : plat.pagesize ≡ options.pagesize)
    (prog : Buf) (h : FileHeader) (ps : List ProgHeader) (args : List (List ℕ))
    (some_args : 0 < length args) (few : length args ≤ 471) (has : HasLoaded ps)
    (static : IsStatic ps) (tame : All (λ p. NoWrap p × InFile prog p.offset p.filesz) ps) where
  abbrev engine_of : Tux
  engine_of = engine w0 h0 h1 h2 options

  abbrev start : World
  start = ready w0 h0 h1 h2

  abbrev load_opts : LoadOpts
  load_opts = record { stacksize = 2 * 1024 * 1024; pagesize = 2 ^ k; perf = options.perf }

  -- The process is installed in a state `u` of the same files and memory.
  module _ (space : AddrSpace) (n : ℕ) (u : World) (fds : u.fd_files ≡ start.fd_files)
      (memory : u.mem ≡ w0.mem) (outside : u.oracle ≡ w0.oracle)
      (hosts : u.host_files ≡ start.host_files) (up : start.next ≤ u.next)
      (roomy : IsRoomy space prog.ptr (prog.ptr + prog.size))
      (headers : HasHeaders w0.mem prog h ps) (maps : MapsWhereAsked w0.oracle) where
    abbrev installed : World
    installed = record u {
      proc = empty_proc space engine_of;
      thread = record { tid = n; ctid = 0; tp = 0; sp = 0; result = 0 };
    }
