-- ===== src/World/Fields.antt =====
-- Structs in memory: numbers one after the other, each in its number of bytes.
use mathlib.Core.List.{append_assoc}
use libtux.Base.{
  ℕ, zero, suc, ◌/◌, ◌%◌, ◌^◌, ◌<◌, ◌≡◌, refl, ap, List, [], ◌∷◌, ◌++◌, take, drop, All,
}
use libtux.World.Memory.{le_bytes, from_le}
use libtux.World.Words.{from_le-le_bytes}

-- The fields of a struct in memory, each with its lowest byte first.
unfoldable pub fields : List ℕ → List ℕ → List ℕ
fields [] bs = []
fields (n ∷ ns) bs = from_le (take n bs) ∷ fields ns (drop n bs)

-- Numbers one after the other, each in its number of bytes.
abbrev pub encode : List (ℕ × ℕ) → List ℕ
encode [] = []
encode ((n, v) ∷ rest) = le_bytes n v ++ encode rest

abbrev pub widths : List (ℕ × ℕ) → List ℕ
widths [] = []
widths ((n, v) ∷ rest) = n ∷ widths rest

abbrev pub values : List (ℕ × ℕ) → List ℕ
values [] = []
values ((n, v) ∷ rest) = v ∷ values rest

-- The number fits in its field.
abbrev pub Fits : ℕ × ℕ → Type 0
Fits (n, v) = v < 256 ^ n

take-le_bytes : (n v : ℕ) (bs : List ℕ) → take n (le_bytes n v ++ bs) ≡ le_bytes n v
take-le_bytes zero v bs = refl
take-le_bytes (suc n) v bs = ap (λ t. (v % 256) ∷ t) (take-le_bytes n (v / 256) bs)

drop-le_bytes : (n v : ℕ) (bs : List ℕ) → drop n (le_bytes n v ++ bs) ≡ bs
drop-le_bytes zero v bs = refl
drop-le_bytes (suc n) v bs = drop-le_bytes n (v / 256) bs

-- Reading the widths of what was laid down gives the numbers back, whatever follows.
pub fields-encode :
    (fs : List (ℕ × ℕ)) (more : List ℕ)
    → All Fits fs
    → fields (widths fs) (encode fs ++ more) ≡ values fs
unfolding fields
fields-encode [] more h = refl
fields-encode ((n, v) ∷ rest) more (fits, all) =
    rw
      (
        append_assoc (le_bytes n v) (encode rest) more,
        take-le_bytes n v (encode rest ++ more),
        drop-le_bytes n v (encode rest ++ more),
        from_le-le_bytes n v fits,
        fields-encode rest more all,
      )
      refl
