-- ===== src/Base/Bits.antt =====
-- `&` with a mask of high bits, at every width, and the complement of a 64-bit word.
use Prim.Native.Nat.{
  ℕ, zero, suc, ◌+◌, ◌-◌, ◌*◌, ◌/◌, ◌%◌, ◌^◌, ◌≤◌, ◌<◌, min, bit_and, digits, bit_and-bitwise,
}
use mathlib.Core.Path.{◌≡◌, refl, ap, ap₂}
use native.Mathlib.Nat.{pow-suc, one-le-pow, add-zero, mul-one}
use native.Mathlib.Omega.{arith}

-- ~w
abbrev pub not64 : ℕ → ℕ
not64 w = 2 ^ 64 - 1 - w

-- The digits of `bit_and` on a given fuel.
abbrev and_with : ℕ → ℕ → ℕ → ℕ
and_with n a b = digits (λ b. zero) min n a b

-- Fuel beyond the first number changes nothing.
and_with_fuel : (n m a b : ℕ) → a ≤ n → a ≤ m → and_with n a b ≡ and_with m a b
and_with_fuel zero zero a b p q = refl
and_with_fuel zero (suc m) zero b p q = refl
and_with_fuel zero (suc m) (suc a) b p q = absurd (omega arith)
and_with_fuel (suc n) zero zero b p q = refl
and_with_fuel (suc n) zero (suc a) b p q = absurd (omega arith)
and_with_fuel (suc n) (suc m) zero b p q = refl
and_with_fuel (suc n) (suc m) (suc a) b p q =
    omega (arith, and_with_fuel n m (suc a / 2) (b / 2) (omega arith) (omega arith))

-- The lowest digit of a conjunction, and the others.
bit_and_digit : (a b : ℕ) → bit_and a b ≡ bit_and (a / 2) (b / 2) * 2 + min (a % 2) (b % 2)
bit_and_digit zero b = omega (arith, bit_and-bitwise 0 b, bit_and-bitwise 0 (b / 2))
bit_and_digit (suc a) b = omega (
  arith,
  bit_and-bitwise (suc a) b,
  bit_and-bitwise (suc a / 2) (b / 2),
  and_with_fuel a (suc a / 2) (suc a / 2) (b / 2) (omega arith) (omega arith),
)

-- A mask of `n` ones keeps a number of `n` bits.
pub bit_and_ones : (n a : ℕ) → a < 2 ^ n → bit_and a (2 ^ n - 1) ≡ a
bit_and_ones zero a h = let e : a ≡ 0 = omega arith in rw e (bit_and-bitwise 0 0)
bit_and_ones (suc n) a h = omega (
  arith,
  pow-suc 2 n,
  one-le-pow n 2 (omega arith),
  bit_and_digit a (2 ^ suc n - 1),
  ap (bit_and (a / 2)) half,
  bit_and_ones n (a / 2) (omega (arith, pow-suc 2 n)),
)
  where
    half : (2 ^ suc n - 1) / 2 ≡ 2 ^ n - 1
    half = omega (arith, pow-suc 2 n, one-le-pow n 2 (omega arith))

doubled : (k x : ℕ) → x * 2 ^ suc k ≡ 2 * (x * 2 ^ k)
doubled k x = omega (arith, ap (λ (t : ℕ). x * t) (pow-suc 2 k))

-- A mask of `m` ones above `k` zeros clears the `k` low bits.
pub bit_and_high :
    (k m q r : ℕ)
    → q < 2 ^ m
    → r < 2 ^ k
    → bit_and (q * 2 ^ k + r) ((2 ^ m - 1) * 2 ^ k) ≡ q * 2 ^ k
bit_and_high zero m q r hq hr =
    let e : r ≡ 0 = omega arith in rw (e, add-zero, mul-one, mul-one) (bit_and_ones m q hq)
bit_and_high (suc k) m q r hq hr = omega (
  arith,
  doubled k q,
  doubled k (2 ^ m - 1),
  bit_and_digit (q * 2 ^ suc k + r) ((2 ^ m - 1) * 2 ^ suc k),
  ap₂ bit_and number_half mask_half,
  bit_and_high k m q (r / 2) hq (omega (arith, pow-suc 2 k)),
)
  where
    number_half : (q * 2 ^ suc k + r) / 2 ≡ q * 2 ^ k + r / 2
    number_half = omega (arith, doubled k q)

    mask_half : ((2 ^ m - 1) * 2 ^ suc k) / 2 ≡ (2 ^ m - 1) * 2 ^ k
    mask_half = omega (arith, doubled k (2 ^ m - 1))

-- A number is the part in a mask and the part outside of it.
pub bit_and_split :
    (n a m : ℕ) → a < 2 ^ n → m < 2 ^ n → bit_and a m + bit_and a (2 ^ n - 1 - m) ≡ a
bit_and_split zero a m ha hm =
    let e : a ≡ 0 = omega arith in
    let e' : m ≡ 0 = omega arith in rw (e, e') (omega (arith, bit_and-bitwise 0 0))
bit_and_split (suc n) a m ha hm = omega (
  arith,
  pow-suc 2 n,
  bit_and_digit a m,
  bit_and_digit a (2 ^ suc n - 1 - m),
  ap (bit_and (a / 2)) half,
  bit_and_split n (a / 2) (m / 2) (omega (arith, pow-suc 2 n)) (omega (arith, pow-suc 2 n)),
)
  where
    half : (2 ^ suc n - 1 - m) / 2 ≡ 2 ^ n - 1 - m / 2
    half = omega (arith, pow-suc 2 n)

-- The part in a mask is no larger than the mask.
pub bit_and-le : (n a m : ℕ) → a < 2 ^ n → m < 2 ^ n → bit_and a m ≤ m
bit_and-le zero a m ha hm =
    let e : a ≡ 0 = omega arith in
    let e' : m ≡ 0 = omega arith in rw (e, e') (omega (arith, bit_and-bitwise 0 0))
bit_and-le (suc n) a m ha hm = omega (
  arith,
  pow-suc 2 n,
  bit_and_digit a m,
  bit_and-le n (a / 2) (m / 2) (omega (arith, pow-suc 2 n)) (omega (arith, pow-suc 2 n)),
)

-- Nothing is left below the lowest digit of the mask.
pub bit_and_shift :
    (k q r m : ℕ) → r < 2 ^ k → bit_and (q * 2 ^ k + r) (m * 2 ^ k) ≡ bit_and q m * 2 ^ k
bit_and_shift zero q r m hr =
    let e : r ≡ 0 = omega arith in rw (e, add-zero, mul-one, mul-one, mul-one) refl
bit_and_shift (suc k) q r m hr = omega (
  arith,
  doubled k q,
  doubled k m,
  doubled k (bit_and q m),
  bit_and_digit (q * 2 ^ suc k + r) (m * 2 ^ suc k),
  ap₂ bit_and number_half mask_half,
  bit_and_shift k q (r / 2) m (omega (arith, pow-suc 2 k)),
)
  where
    number_half : (q * 2 ^ suc k + r) / 2 ≡ q * 2 ^ k + r / 2
    number_half = omega (arith, doubled k q)

    mask_half : (m * 2 ^ suc k) / 2 ≡ m * 2 ^ k
    mask_half = omega (arith, doubled k m)
