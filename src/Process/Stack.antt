-- ===== src/Process/Stack.antt =====
-- stacksetup of src/proc.c: the stack that a program starts with. The host's strings are lists of
-- bytes without the NUL.
use libtux.Base.{
  ℕ, suc, ◌+◌, ◌-◌, ◌*◌, ◌%◌, Bool, true, false, List, [], ◌∷◌, ◌++◌, Option, none, some, leb,
  if◌then◌else◌, length, take,
}
use libtux.World.{Ptr, AddrSpace, fault, Cmd, ◌>>=◌, ◌>>◌, pure, gets, modify}
use libtux.World.Memory.{bytes_at, copy_to, le_bytes, from_le}
use libtux.Types.Auxv
use libtux.Align.{word_mod}
use libtux.AddrSpace.{as_toptr}
use libtux.Elf.Program.{LoadInfo}

-- ARGC_MAX
abbrev pub argc_max : ℕ
argc_max = 1024

-- ARGV_MAX
abbrev pub argv_max : ℕ
argv_max = 1024

-- ARG_BLOCK
abbrev pub arg_block : ℕ
arg_block = 4096

-- The bytes that are written for an argument: cut, and with a NUL.
abbrev pub c_string : List ℕ → List ℕ
c_string s = take argv_max s ++ 0 ∷ []

-- The strings from `at` on, and where each of them went. `argv_ptrs` has no room beyond ARGC_MAX.
unfoldable pub string_loop : Ptr → ℕ → Ptr → List (List ℕ) → Cmd (Option (List Ptr))
string_loop top i at [] = pure (some [])
string_loop top i at (s ∷ ss) =
    let len = length (c_string s) in
    if leb top (at + len) then pure none else if leb argc_max i then (λ w. fault) else do
      modify (λ w. record w { mem = copy_to w.mem at (c_string s) })
      rest ← string_loop top (suc i) (at + len) ss
      pure (elim rest [ none ↦ none | some ps ↦ some (at ∷ ps) ])

abbrev pub store_word : Ptr → ℕ → Cmd (Unit {0})
store_word a v = modify (λ w. record w { mem = copy_to w.mem a (le_bytes 8 v) })

unfoldable pub word_at : (ℕ → ℕ) → Ptr → ℕ
word_at mem a = from_le (bytes_at mem a 8)

-- The pointers from `at` on. What is tested against the limit is where they begin.
unfoldable pub pointer_loop : AddrSpace → Ptr → Ptr → Ptr → List Ptr → Cmd Bool
pointer_loop space limit start at [] = pure true
pointer_loop space limit start at (p ∷ ps) =
    if leb limit start
    then pure false
    else do q ← as_toptr space p; store_word at q; pointer_loop space limit start (at + 8) ps

unfoldable pub store_words : Ptr → List ℕ → Cmd (Unit {0})
store_words at [] = pure tt
store_words at (v ∷ vs) = do store_word at v; store_words (at + 8) vs

-- The auxiliary vector: pairs of a type and a value. `name` is the first argument.
abbrev pub auxv : LoadInfo → Ptr → ℕ → List ℕ
auxv info name pagesize =
    Auxv.secure
    ∷ 0
    ∷ Auxv.base
    ∷ info.ldbase
    ∷ Auxv.phdr
    ∷ ((info.elfbase + info.elfphoff) % word_mod)
    ∷ Auxv.phnum
    ∷ info.elfphnum
    ∷ Auxv.phent
    ∷ info.elfphentsize
    ∷ Auxv.entry
    ∷ info.elfentry
    ∷ Auxv.execfn
    ∷ name
    ∷ Auxv.pagesz
    ∷ pagesize
    ∷ Auxv.hwcap
    ∷ 0
    ∷ Auxv.hwcap2
    ∷ 0
    ∷ Auxv.random
    ∷ name
    ∷ Auxv.flags
    ∷ 0
    ∷ Auxv.uid
    ∷ 1000
    ∷ Auxv.euid
    ∷ 1000
    ∷ Auxv.gid
    ∷ 1000
    ∷ Auxv.egid
    ∷ 1000
    ∷ Auxv.sysinfo
    ∷ 0
    ∷ Auxv.sysinfo_ehdr
    ∷ 0
    ∷ Auxv.nothing
    ∷ 0
    ∷ []

-- What follows the pointers: the NULL behind them, an empty environment, and the auxiliary vector.
unfoldable pub finish_stack : AddrSpace → LoadInfo → ℕ → Ptr → Ptr → Cmd (Unit {0})
finish_stack space info pagesize argv at = do
  store_words at (0 ∷ 0 ∷ [])
  first ← gets (λ w. word_at w.mem argv)
  name ← as_toptr space first
  store_words (at + 16) (auxv info name pagesize)

-- The stack pointer, or `none` where the arguments have no room.
unfoldable pub stacksetup : AddrSpace → ℕ → List (List ℕ) → LoadInfo → Cmd (Option Ptr)
stacksetup space pagesize args info =
    let top = info.stack + info.stacksize in
    let sp = top - 2 * arg_block in
    do
      strings ← string_loop top 0 (top - arg_block) args
      elim strings [
        | none ↦ pure none
        | some ps ↦ do
          store_word sp (length args)
          done ← pointer_loop space (top - arg_block) (sp + 8) (sp + 8) ps
          if done
              then (do
                finish_stack space info pagesize (sp + 8) (sp + 8 + 8 * length args)
                pure (some sp))
              else pure none
      ]
