-- ===== src/Tests/Stacks.antt =====
-- The stack of a program with two arguments.
use libtux.Base.{ℕ, ◌-◌, ◌<◌, ◌≡◌, refl, List, [], ◌∷◌, some, arith}
use libtux.World.Total.{Holds}
use libtux.Align.{word_mod}
use libtux.AddrSpace.{as_toptr}
use libtux.Elf.Program.{LoadInfo}
use libtux.Process.Stack.{stacksetup, string_loop, pointer_loop, store_words, finish_stack, word_at}
use libtux.Process.Layout.{HasWords, StackResult, stacksetup-StackResult}
use libtux.Tests.Demo.{demo, demo_space}
use libtux.Tests.Programs.{returned}

abbrev info : LoadInfo
info = record {
  stack = demo_space.maxaddr - 2097152;
  stacksize = 2097152;
  lastva = 4295061504;
  elfentry = 4295053328;
  ldentry = 0;
  elfbase = 4295053312;
  ldbase = 4295053312;
  elfphoff = 64;
  elfphnum = 1;
  elfphentsize = 56;
}

-- "ls" and "-a"
abbrev pub arguments : List (List ℕ)
arguments = (108 ∷ 115 ∷ []) ∷ (45 ∷ 97 ∷ []) ∷ []

info-HasWords : HasWords info 4096
info-HasWords = record {
  ldbase = ground arith;
  elfphnum = ground arith;
  elfphentsize = ground arith;
  elfentry = ground arith;
  page = ground arith;
}

pub demo_space-small : demo_space.maxaddr < word_mod
demo_space-small = ground arith

stacksetup-StackResult_example :
    Holds
      (StackResult demo_space demo_space-small info 4096 info-HasWords arguments demo)
      (stacksetup demo_space 4096 arguments info demo)
stacksetup-StackResult_example =
    stacksetup-StackResult demo_space demo_space-small info 4096 info-HasWords arguments demo
      (ground arith) (ground arith) (ground arith) (ground arith) (ground arith)

sets_up :
    returned (stacksetup demo_space 4096 arguments info demo)
    ≡ some (some (demo_space.maxaddr - 8192))
unfolding stacksetup string_loop pointer_loop store_words finish_stack word_at as_toptr
sets_up = refl
