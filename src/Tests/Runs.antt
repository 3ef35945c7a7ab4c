-- ===== src/Tests/Runs.antt =====
-- The runner's options, as argp_parse hands them to it.
use libtux.Base.{◌-◌, ◌^◌, ◌≡◌, refl, true, false, [], ◌∷◌, none, some, pos}
use libtux.World.{ok}
use libtux.Runner.{no_args, atoi, parse_opt, parse_all, pages, run_main}
use libtux.Runner.Key
use libtux.Tests.Demo.{demo}

-- --pagesize 16384 -p a b
options :
    parse_all
      ((Key.pagesize, 49 ∷ 54 ∷ 51 ∷ 56 ∷ 52 ∷ [])
        ∷ (Key.perf, [])
        ∷ (Key.arg, 97 ∷ [])
        ∷ (Key.arg, 98 ∷ [])
        ∷ [])
      no_args
    ≡ record {
      inputs = (97 ∷ []) ∷ (98 ∷ []) ∷ [];
      verbose = false;
      strace = false;
      perf = true;
      pagesize = 16384;
    }
unfolding parse_all parse_opt atoi
options = refl

-- A page size that the host's does not divide is refused.
refused : pages 4096 5000 ≡ none
unfolding pages
refused = refl

-- --pagesize -4096 is not.
negative :
    parse_opt Key.pagesize (45 ∷ 52 ∷ 48 ∷ 57 ∷ 54 ∷ []) no_args
    ≡ some (record no_args { pagesize = 2 ^ 64 - 4096 })
unfolding parse_opt atoi
negative = refl

accepted : pages 4096 (2 ^ 64 - 4096) ≡ some (2 ^ 64 - 4096)
unfolding pages
accepted = refl

no_input : run_main false 4096 1 2 3 (λ e w. ok 0 w) [] demo ≡ ok (pos 1) demo
unfolding run_main parse_all
no_input = refl
