-- ===== src/Host/Posix/Futex/Find.antt =====
-- futexfind: the walk over the active list finds what is on it.
use libtux.Base.{
  ℕ, ◌+◌, ◌-◌, ◌≤◌, ◌<◌, ◌≡◌, ◌≢◌, ◌⊎◌, ◌==◌, refl, ap, sym, ◌∙◌, List, [], ◌∷◌, ◌++◌, Option, none,
  some, arith, if◌then◌else◌, length, count, one_if, Bool-cases, inl, inr,
}
use mathlib.Core.List.{append_assoc}
use libtux.Host.Posix.Futex.{Futex, head?, erase, Lists, Futexes, find_loop, futexfind}

-- The first of the futexes that has the address.
pub find_in : (ℕ → Futex) → ℕ → List ℕ → Option ℕ
find_in mem addr [] = none
find_in mem addr (x ∷ xs) = if (mem x).addr == addr then some x else find_in mem addr xs

pub count-append : (p : ℕ) (xs ys : List ℕ) → count p (xs ++ ys) ≡ count p xs + count p ys
count-append p [] ys = omega arith
count-append p (x ∷ xs) ys = omega (arith, count-append p xs ys)

pub count-erase :
    (p e : ℕ) (xs : List ℕ) → count p (erase xs e) ≡ (if p == e then count p xs - 1 else count p xs)
count-erase p e [] = ground arith
count-erase p e (x ∷ xs) = ground (arith, count-erase p e xs)

module _ (lists : Lists) (fs : Futexes lists) (addr : ℕ)
    (once : (e : ℕ) → count e (lists.elements fs.active) ≤ 1) where
  find_loop_lem :
      (xs ys : List ℕ)
      → lists.elements fs.active ≡ xs ++ ys
      → find_loop lists (length ys) fs addr (head? ys) ≡ find_in fs.mem addr ys
  unfolding find_loop find_in
  find_loop_lem xs [] e = refl
  find_loop_lem xs (y ∷ ys) e =
      let self : one_if (y == y) ≡ 1 = ground arith in
      let before : count y xs ≡ 0 =
        omega (arith, once y, ap (count y) e, count-append y xs (y ∷ ys), self) in
      rw
        (
          lists.next_lem fs.active xs y ys e before,
          find_loop_lem (xs ++ y ∷ []) ys (e ∙ sym (append_assoc xs (y ∷ []) ys)),
        )
        refl

  -- The walk finds the first active futex with the address, if there is one.
  pub futexfind_lem : futexfind lists fs addr ≡ find_in fs.mem addr (lists.elements fs.active)
  unfolding futexfind
  futexfind_lem = rw (lists.first_lem fs.active) (find_loop_lem [] (lists.elements fs.active) refl)

-- It finds one that has the address, or none has it.
pub find_in_cases :
    (mem : ℕ → Futex) (addr : ℕ) (xs : List ℕ)
    → ((find_in mem addr xs ≡ none) × ((i : ℕ) → 0 < count i xs → (mem i).addr ≢ addr))
      ⊎ ((f : ℕ) × (find_in mem addr xs ≡ some f) × (0 < count f xs) × ((mem f).addr ≡ addr))
unfolding find_in
find_in_cases mem addr [] = inl (refl, λ i h. absurd (omega arith))
find_in_cases mem addr (x ∷ xs) = elim (Bool-cases ((mem x).addr == addr)) [
  | inl e ↦ inr (x, rw e refl, ground arith, ground arith)
  | inr e ↦ elim (find_in_cases mem addr xs) [
    | inl (n, none_has) ↦ inl (
      rw e n,
      λ i h. elim (Bool-cases (x == i)) [
        | inl same ↦ ground arith
        | inr other ↦ none_has i (ground arith)
      ],
    )
    | inr (f, found, among, at) ↦ inr (f, rw e found, omega arith, at)
  ]
]
