-- ===== src/World/Memory.antt =====
-- Bytes of the host process, as the code and the kernel copy them.
use libtux.Base.{
  ℕ, zero, suc, ◌+◌, ◌-◌, ◌*◌, ◌/◌, ◌%◌, List, [], ◌∷◌, get_or, length, ltb, leb, ◌&&◌,
  if◌then◌else◌,
}

-- The `n` bytes from `p`.
abbrev pub bytes_at : (ℕ → ℕ) → ℕ → ℕ → List ℕ
bytes_at mem p zero = []
bytes_at mem p (suc n) = mem p ∷ bytes_at mem (suc p) n

-- memcpy of `bs` to `p`
abbrev pub copy_to : (ℕ → ℕ) → ℕ → List ℕ → ℕ → ℕ
copy_to mem p bs a = if leb p a && ltb a (p + length bs) then get_or bs (a - p) 0 else mem a

-- The `n` bytes of a number, lowest first.
abbrev pub le_bytes : ℕ → ℕ → List ℕ
le_bytes zero v = []
le_bytes (suc n) v = (v % 256) ∷ le_bytes n (v / 256)

-- The number that `bs` spell, lowest byte first.
abbrev pub from_le : List ℕ → ℕ
from_le [] = 0
from_le (b ∷ bs) = b + 256 * from_le bs
