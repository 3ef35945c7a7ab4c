-- ===== src/Runner.antt =====
-- tools/lfi_run.c: the runner of the command line. argp_parse of the C library calls parse_opt with
-- keys and arguments, which are given here; what lfi_tux_proc_run does is given too. What is printed
-- is left out.
pub mod Key
pub mod Inputs
use libtux.Base.{
  ℕ, ◌+◌, ◌-◌, ◌*◌, ◌%◌, ◌==◌, Bool, true, false, not, ◌&&◌, ◌||◌, List, [], ◌∷◌, ◌++◌, Option,
  none, some, ltb, leb, if◌then◌else◌, length, ℤ, pos, neg, to_int, to_word,
}
use libtux.World.{Ptr, null, FilePath, TuxOptions, Tux, fault, Cmd, ◌>>=◌, ◌>>◌, pure, modify}
use libtux.Align.{word_mod}
use libtux.Context.{lfi_new_plat}
use libtux.Engine.{tux_new}
use libtux.Elf.Buf.{Buf, bufreadfile}
use libtux.Runner.Key
use libtux.Process.Create.{Entry, procnewfile}

-- INPUTMAX
abbrev pub inputmax : ℕ
inputmax = 256

-- `struct Args`: its options are the engine's, with those that only print.
pub record Args : Type 0 where
  pub inputs : List FilePath
  pub verbose : Bool
  pub strace : Bool
  pub perf : Bool
  pub pagesize : ℕ

abbrev pub no_args : Args
no_args = record { inputs = []; verbose = false; strace = false; perf = false; pagesize = 0 }

-- The digits that come first, after the number `n`.
abbrev digits : ℕ → List ℕ → ℕ
digits n [] = n
digits n (b ∷ bs) =
    let rest = digits (n * 10 + (b - 48)) bs in if leb 48 b && leb b 57 then rest else n

-- A number with a sign, without white space before it.
abbrev signed : List ℕ → ℤ
signed [] = pos 0
signed (b ∷ bs) =
    if b == 45
    then neg (digits 0 bs)
    else if b == 43
    then pos (digits 0 bs)
    else pos (digits 0 (b ∷ bs))

-- atoi of the C library, for a number that an int can hold.
unfoldable pub atoi : List ℕ → ℤ
atoi [] = pos 0
atoi (b ∷ bs) =
    let rest = atoi bs in if b == 32 || leb 9 b && leb b 13 then rest else signed (b ∷ bs)

-- `none` for ARGP_ERR_UNKNOWN. argp_state_help, which -h calls, prints and leaves the process.
unfoldable pub parse_opt : ℕ → List ℕ → Args → Option Args
parse_opt key arg args =
    if key == Key.help
    then some args
    else if key == Key.verbose
    then some (record args { verbose = true })
    else if key == Key.perf
    then some (record args { perf = true })
    else if key == Key.strace
    then some (record args { strace = true })
    else if key == Key.pagesize
    then some (record args { pagesize = to_word (atoi arg) })
    else if key == Key.arg
    then some (
        if ltb (length args.inputs) inputmax
        then record args { inputs = args.inputs ++ arg ∷ [] }
        else args)
    else none

-- The calls of argp_parse. An unknown key is one of argp's own, which needs no answer.
unfoldable pub parse_all : List (ℕ × List ℕ) → Args → Args
parse_all [] args = args
parse_all ((key, arg) ∷ more) args =
    parse_all more (elim (parse_opt key arg args) [ none ↦ args | some new ↦ new ])

-- The page size that the engine is given, unless it is refused.
unfoldable pub pages : ℕ → ℕ → Option ℕ
pages host_page asked =
    let size = if asked == 0 then host_page else asked in
    if size % host_page == 0 then some size else none

abbrev options_of : Args → ℕ → TuxOptions
options_of args size = record {
  pagesize = size;
  pause_on_exit = false;
  perf = args.perf;
  fs_open = false;
}

-- The engine is in place for what follows.
abbrev with_tux : Tux → Cmd (Unit {0})
with_tux tux = modify (λ w. record w { proc = record w.proc { tux = tux } })

module _ (safe : Bool) (host_page : ℕ) (host_stdin host_stdout host_stderr : Ptr)
    (proc_run : Entry → Cmd ℕ) where
  -- The program is loaded and run; its exit code is returned as an int.
  unfoldable pub run_input : TuxOptions → FilePath → List FilePath → Cmd ℤ
  run_input opts input inputs = do
    plat ← lfi_new_plat opts.pagesize
    made ← tux_new opts host_stdin host_stdout host_stderr
    elim made [
      | none ↦ λ w. fault
      | some tux ↦ elim plat [
        | none ↦ λ w. fault
        | some p ↦ do
          with_tux tux
          f ← bufreadfile input
          if f.ptr == null then pure (pos 1) else do
            entry ← procnewfile p safe tux f inputs
            elim entry [ none ↦ pure (pos 1) | some e ↦ do code ← proc_run e; pure (to_int code) ]
      ]
    ]

  -- Neither the platform nor the engine is checked: a failure to make one ends in a use of NULL.
  unfoldable pub run_main : List (ℕ × List ℕ) → Cmd ℤ
  run_main calls =
      let args = parse_all calls no_args in
      elim args.inputs [
        | [] ↦ pure (pos 1)
        | input ∷ _ ↦ elim (pages host_page args.pagesize) [
          | none ↦ pure (pos 1)
          | some size ↦ run_input (options_of args size) input args.inputs
        ]
      ]
