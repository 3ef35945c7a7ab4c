-- ===== src/Align/Any.antt =====
-- src/align.h for an alignment that need not be a power of two, as the loader takes one from a file.
use native.Mathlib.Nat.{
  div-add-mod', mod-lt, mul-mod_left, mul_comm, one-le-pow, mul-sub, le_of_dvd, dvd-sub,
  dvd_of_mod-eq-zero,
}
use libtux.Base.{ℕ, ◌+◌, ◌-◌, ◌*◌, ◌/◌, ◌%◌, ◌^◌, ◌≤◌, ◌<◌, ◌≡◌, sym, arith, bit_and, ap, ◌∙◌}
use libtux.Base.Bits.{not64, bit_and_split, bit_and-le, bit_and_shift}
use libtux.Align.{truncp, ceilp, word_mod}

module _ (align : ℕ) (h : 0 < align) (small : align ≤ word_mod) where
  mask : (align + word_mod - 1) % word_mod ≡ align - 1
  mask = omega arith

  -- A mask takes no more than itself from a number.
  cleared :
      (a : ℕ)
      → a < word_mod
      → (bit_and a (not64 (align - 1)) ≤ a) × (a < bit_and a (not64 (align - 1)) + align)
  cleared a lt = omega (
    arith,
    bit_and_split 64 a (align - 1) lt (omega arith),
    bit_and-le 64 a (align - 1) lt (omega arith),
  )

  -- Rounding down stays within the alignment.
  pub truncp_bounds : (a : ℕ) → a < word_mod → (truncp a align ≤ a) × (a < truncp a align + align)
  unfolding truncp
  truncp_bounds a lt = rw mask (cleared a lt)

  -- Rounding up likewise, if the sum does not wrap.
  pub ceilp_bounds :
      (a : ℕ) → a + align ≤ word_mod → (a ≤ ceilp a align) × (ceilp a align < a + align)
  unfolding ceilp
  ceilp_bounds a fits = rw (mask, sum) (omega (arith, cleared (a + (align - 1)) (omega arith)))
    where
      sum : (a + (align - 1)) % word_mod ≡ a + (align - 1)
      sum = omega arith

  -- The results are multiples of a page, if the alignment is one.
  module _ (k m c : ℕ) (split : 2 ^ k * 2 ^ m ≡ word_mod) (is : c * 2 ^ k ≡ align) where
    paged : (a : ℕ) → bit_and a (not64 (align - 1)) % 2 ^ k ≡ 0
    paged a = rw mask_eq (
        ap (λ t. bit_and t ((2 ^ m - c) * 2 ^ k) % 2 ^ k) (sym (div-add-mod' a (2 ^ k)))
        ∙ ap (λ t. t % 2 ^ k)
            (bit_and_shift k (a / 2 ^ k) (a % 2 ^ k) (2 ^ m - c)
              (mod-lt a (one-le-pow k 2 (omega arith))))
        ∙ mul-mod_left (bit_and (a / 2 ^ k) (2 ^ m - c)) (2 ^ k))
      where
        mask_eq : not64 (align - 1) ≡ (2 ^ m - c) * 2 ^ k
        mask_eq = omega (
          arith,
          mul_comm (2 ^ m - c) (2 ^ k),
          mul-sub (2 ^ k) (2 ^ m) c,
          mul_comm (2 ^ k) c,
          split,
          is,
        )

    pub truncp_paged : (a : ℕ) → truncp a align % 2 ^ k ≡ 0
    unfolding truncp
    truncp_paged a = rw mask (paged a)

    pub ceilp_paged : (a : ℕ) → ceilp a align % 2 ^ k ≡ 0
    unfolding ceilp
    ceilp_paged a = rw mask (paged ((a + (align - 1)) % word_mod))

-- The alignment 0 has a mask of ones, which clears every address.
pub truncp-zero : (a : ℕ) → a < word_mod → truncp a 0 ≡ 0
unfolding truncp
truncp-zero a h = omega (arith, bit_and-le 64 a 0 h (omega arith))

pub ceilp-zero : (a : ℕ) → ceilp a 0 ≡ 0
unfolding ceilp
ceilp-zero a =
    omega (arith, bit_and-le 64 ((a + (word_mod - 1)) % word_mod) 0 (omega arith) (omega arith))

-- Two multiples of a page lie a page apart.
pub page_apart : (n a b : ℕ) → a % n ≡ 0 → b % n ≡ 0 → a < b → a + n ≤ b
page_apart n a b ha hb lt =
    omega (
      arith,
      le_of_dvd (omega arith) (dvd-sub n (dvd_of_mod-eq-zero n hb) (dvd_of_mod-eq-zero n ha)),
    )
