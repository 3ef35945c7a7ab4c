-- ===== src/Perf/Hex.antt =====
-- A number that was printed in hexadecimal is read again.
use libtux.Base.{
  ℕ, zero, suc, ◌+◌, ◌-◌, ◌*◌, ◌/◌, ◌%◌, ◌^◌, ◌<◌, ◌≡◌, ◌≢◌, ◌==◌, refl, ◌∙◌, List, [], ◌∷◌, ◌++◌,
  if◌then◌else◌, leb, arith, All, Bool-cases, inl, inr,
}
use libtux.Perf.{digit, digits, strip, hex}

abbrev pub digit_value : ℕ → ℕ
digit_value b = if leb 97 b then b - 87 else b - 48

-- The number that digits give behind others.
unfoldable pub from_hex : ℕ → List ℕ → ℕ
from_hex acc [] = acc
from_hex acc (b ∷ bs) = from_hex (acc * 16 + digit_value b) bs

from_hex-append :
    (acc : ℕ) (xs : List ℕ) (b : ℕ)
    → from_hex acc (xs ++ b ∷ []) ≡ from_hex acc xs * 16 + digit_value b
unfolding from_hex
from_hex-append acc [] b = refl
from_hex-append acc (x ∷ xs) b = from_hex-append (acc * 16 + digit_value x) xs b

digit_value-digit : (d : ℕ) → d < 16 → digit_value (digit d) ≡ d
digit_value-digit d lt = ground arith

from_hex-digits : (k n : ℕ) → n < 16 ^ k → from_hex 0 (digits k n) ≡ n
unfolding from_hex digits
from_hex-digits zero n lt = omega (arith, lt)
from_hex-digits (suc k) n lt =
    let small : n / 16 < 16 ^ k = omega (arith, lt) in
    let last : n % 16 < 16 = omega arith in
    from_hex-append 0 (digits k (n / 16)) (digit (n % 16))
    ∙ omega (arith, from_hex-digits k (n / 16) small, digit_value-digit (n % 16) last)

-- A digit, and not the space behind it.
abbrev pub IsDigit : ℕ → Type 0
IsDigit b = b ≢ 32

digit-IsDigit : (d : ℕ) → IsDigit (digit d)
digit-IsDigit d = ground arith

All-snoc : (xs : List ℕ) (x : ℕ) → All IsDigit xs → IsDigit x → All IsDigit (xs ++ x ∷ [])
All-snoc [] x h p = (p, tt)
All-snoc (y ∷ xs) x (q, h) p = (q, All-snoc xs x h p)

digits-IsDigit : (k n : ℕ) → All IsDigit (digits k n)
unfolding digits
digits-IsDigit zero n = tt
digits-IsDigit (suc k) n =
    All-snoc (digits k (n / 16)) (digit (n % 16)) (digits-IsDigit k (n / 16))
      (digit-IsDigit (n % 16))

strip-IsDigit : (k : ℕ) (ds : List ℕ) → All IsDigit ds → All IsDigit (strip k ds)
unfolding strip
strip-IsDigit zero ds h = h
strip-IsDigit (suc k) [] h = tt
strip-IsDigit (suc k) (d ∷ ds) (p, h) = elim (Bool-cases (d == 48)) [
  | inl e ↦ rw e (strip-IsDigit k ds h)
  | inr e ↦ rw e (p, h)
]

from_hex-strip : (k : ℕ) (ds : List ℕ) → from_hex 0 (strip k ds) ≡ from_hex 0 ds
unfolding from_hex strip
from_hex-strip zero ds = refl
from_hex-strip (suc k) [] = refl
from_hex-strip (suc k) (d ∷ ds) = ground (arith, from_hex-strip k ds)

pub hex-IsDigit : (width n : ℕ) → All IsDigit (hex width n)
unfolding hex
hex-IsDigit width n = strip-IsDigit (16 - width) (digits 16 n) (digits-IsDigit 16 n)

pub from_hex-hex : (width n : ℕ) → n < 2 ^ 64 → from_hex 0 (hex width n) ≡ n
unfolding hex
from_hex-hex width n lt =
    from_hex-strip (16 - width) (digits 16 n) ∙ from_hex-digits 16 n (omega (arith, lt))
