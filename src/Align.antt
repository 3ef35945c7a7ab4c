-- ===== src/Align.antt =====
-- src/align.h: rounding of 64-bit addresses.
pub mod Any
use libtux.Base.{ℕ, suc, sym, ◌+◌, ◌-◌, ◌*◌, ◌/◌, ◌%◌, ◌^◌, ◌≤◌, ◌<◌, ◌≡◌, arith, bit_and, ap, ◌∙◌}
use native.Mathlib.Nat.{
  one-le-pow, div-lt_iff_lt-mul, div-add-mod', mod-lt, mul_comm, mul-suc, mul-mod_left,
  div-mul-le_self, lt-div-mul-add,
}
use libtux.Base.Bits.{not64, bit_and_high}

abbrev pub word_mod : ℕ
word_mod = 2 ^ 64

unfoldable pub truncp : ℕ → ℕ → ℕ
truncp addr align = bit_and addr (not64 ((align + word_mod - 1) % word_mod))

unfoldable pub ceilp : ℕ → ℕ → ℕ
ceilp addr align =
    let align_mask = (align + word_mod - 1) % word_mod in
    bit_and ((addr + align_mask) % word_mod) (not64 align_mask)

-- The complement of the mask of an alignment that divides 2 ^ 64.
mask_of : (p q : ℕ) → 0 < p → p * suc q ≡ word_mod → not64 ((p + word_mod - 1) % word_mod) ≡ q * p
mask_of p q h split = omega (arith, mul_comm q p, mul-suc p q, low)
  where
    low : (p + word_mod - 1) % word_mod ≡ p - 1
    low = omega (arith, mul-suc p q)

-- What is left of an address is less than the power of two that it was divided by.
module _ (k m : ℕ) (split : 2 ^ k * 2 ^ m ≡ word_mod) where
  -- The mask of the alignment 2 ^ k.
  mask : not64 ((2 ^ k + word_mod - 1) % word_mod) ≡ (2 ^ m - 1) * 2 ^ k
  mask =
      mask_of (2 ^ k) (2 ^ m - 1) (one-le-pow k 2 (omega arith))
        (ap (λ (t : ℕ). 2 ^ k * t) (omega (arith, one-le-pow m 2 (omega arith))) ∙ split)

  quotient_small : (a : ℕ) → a < word_mod → a / 2 ^ k < 2 ^ m
  quotient_small a h =
      (div-lt_iff_lt-mul (one-le-pow k 2 (omega arith))).1
        (omega (arith, split, mul_comm (2 ^ m) (2 ^ k)))

  -- truncp rounds down to a multiple of a power of two.
  pub truncp_lem : (addr : ℕ) → addr < word_mod → truncp addr (2 ^ k) ≡ addr / 2 ^ k * 2 ^ k
  unfolding truncp
  truncp_lem addr h = rw mask (
      ap (λ t. bit_and t ((2 ^ m - 1) * 2 ^ k)) (sym (div-add-mod' addr (2 ^ k)))
      ∙ bit_and_high k m (addr / 2 ^ k) (addr % 2 ^ k) (quotient_small addr h)
          (mod-lt addr (one-le-pow k 2 (omega arith))))

  -- ceilp rounds up to one, where the sum does not wrap.
  pub ceilp_lem :
      (addr : ℕ) → addr + 2 ^ k ≤ word_mod → ceilp addr (2 ^ k) ≡ (addr + 2 ^ k - 1) / 2 ^ k * 2 ^ k
  unfolding ceilp truncp
  ceilp_lem addr h =
      ap (λ t. bit_and t (not64 ((2 ^ k + word_mod - 1) % word_mod))) sum
      ∙ truncp_lem (addr + 2 ^ k - 1) (omega (arith, one-le-pow k 2 (omega arith)))
    where
      sum : (addr + (2 ^ k + word_mod - 1) % word_mod) % word_mod ≡ addr + 2 ^ k - 1
      sum = omega (arith, one-le-pow k 2 (omega arith))

  -- The rounded addresses are multiples of the alignment on either side of the address, less than
  -- the alignment away.
  pub align_bounds :
      (addr : ℕ)
      → addr + 2 ^ k ≤ word_mod
      → (truncp addr (2 ^ k) % 2 ^ k ≡ 0)
        × (truncp addr (2 ^ k) ≤ addr)
        × (addr < truncp addr (2 ^ k) + 2 ^ k)
        × (ceilp addr (2 ^ k) % 2 ^ k ≡ 0)
        × (addr ≤ ceilp addr (2 ^ k))
        × (ceilp addr (2 ^ k) < addr + 2 ^ k)
  align_bounds addr h =
      let pos = one-le-pow k 2 (omega arith) in
      rw (truncp_lem addr (omega arith), ceilp_lem addr h)
        (
          mul-mod_left (addr / 2 ^ k) (2 ^ k),
          div-mul-le_self addr (2 ^ k),
          lt-div-mul-add pos,
          mul-mod_left ((addr + 2 ^ k - 1) / 2 ^ k) (2 ^ k),
          omega (arith, pos, lt-div-mul-add {a = addr + 2 ^ k - 1} pos),
          omega (arith, pos, div-mul-le_self (addr + 2 ^ k - 1) (2 ^ k)),
        )
