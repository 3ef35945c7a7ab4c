-- ===== src/Dispatch/Decode.antt =====
-- The tables give each call one number.
use libtux.Base.{
  ℕ, ◌+◌, ◌≤◌, ◌≡◌, ◌==◌, refl, Bool, true, ◌&&◌, List, [], ◌∷◌, some, arith, ltb, subst,
  Bool-cases, inl, inr,
}
use libtux.Dispatch.Number.{Name}
use libtux.Dispatch.Arch.{Arch, x64, arm64, numbers, lookup, decode}

-- The numbers from `n` on rise.
abbrev pub rises : ℕ → List (ℕ × Name) → Bool
rises n [] = true
rises n ((m, name) ∷ rest) = ltb n (m + 1) && rises (m + 1) rest

-- The entry stands in the list.
pub data In (n : ℕ) (name : Name) : List (ℕ × Name) → Type 0 where
  here : {rest : List (ℕ × Name)} → In n name ((n, name) ∷ rest)
  there : {e : ℕ × Name} {rest : List (ℕ × Name)} → In n name rest → In n name (e ∷ rest)

In-le : (n m : ℕ) (name : Name) (t : List (ℕ × Name)) → rises m t ≡ true → In n name t → m ≤ n
In-le n m name [] h i = elim i [ ]
In-le n m name (_ ∷ rest) h here = ground arith
In-le n m name ((k, other) ∷ rest) h (there i) = ground (arith, In-le n (k + 1) name rest)

lookup-In :
    (n m : ℕ) (name : Name) (t : List (ℕ × Name))
    → rises m t ≡ true
    → In n name t
    → lookup n t ≡ some name
unfolding lookup
lookup-In n m name [] h i = elim i [ ]
lookup-In n m name (_ ∷ rest) h here = ground arith
lookup-In n m name ((k, other) ∷ rest) h (there i) =
    ground (arith, In-le n (k + 1) name rest, lookup-In n (k + 1) name rest)

numbers_rise : (arch : Arch) → rises 0 (numbers arch) ≡ true
numbers_rise x64 = refl
numbers_rise arm64 = refl

-- Every entry of a machine's table is the one that its number finds.
pub decode-In :
    (arch : Arch) (n : ℕ) (name : Name) → In n name (numbers arch) → decode arch n ≡ some name
unfolding decode
decode-In arch n name i = lookup-In n 0 name (numbers arch) (numbers_rise arch) i

-- And what a number finds is an entry.
pub In-lookup : (n : ℕ) (name : Name) (t : List (ℕ × Name)) → lookup n t ≡ some name → In n name t
unfolding lookup
In-lookup n name [] e = ground arith
In-lookup n name ((m, other) ∷ rest) e = elim (Bool-cases (n == m)) [
  | inl e' ↦
      let same : n ≡ m = ground arith in
      let named : name ≡ other = ground arith in
      subst (λ k. In n name ((k, other) ∷ rest)) same
        (subst (λ o. In n name ((n, o) ∷ rest)) named here)
  | inr e' ↦ there (In-lookup n name rest (ground arith))
]
