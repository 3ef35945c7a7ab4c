-- ===== src/Runner/Inputs.antt =====
-- The array of inputs of tools/lfi_run.c.
use libtux.Base.{
  ℕ, ◌≤◌, ◌≡◌, List, [], ◌∷◌, some, Option-cases, inl, inr, arith, length, length-append,
}
use libtux.Runner.{Args, inputmax, parse_opt, parse_all}

-- One call keeps the inputs in their array.
parse_opt_bounded :
    (key : ℕ) (arg : List ℕ) (args new : Args)
    → length args.inputs ≤ inputmax
    → parse_opt key arg args ≡ some new
    → length new.inputs ≤ inputmax
unfolding parse_opt
parse_opt_bounded key arg args new le e = ground (arith, e, length-append args.inputs (arg ∷ []))

-- However many arguments there are, the inputs stay in their array: those beyond 256 are dropped.
parse_all_bounded :
    (calls : List (ℕ × List ℕ)) (args : Args)
    → length args.inputs ≤ inputmax
    → length (parse_all calls args).inputs ≤ inputmax
unfolding parse_all
parse_all_bounded [] args le = le
parse_all_bounded ((key, arg) ∷ more) args le =
    parse_all_bounded more _ (elim (Option-cases (parse_opt key arg args)) [
      | inl e ↦ rw e le
      | inr (new, e) ↦ rw e (parse_opt_bounded key arg args new le e)
    ])
