-- ===== src/World/Words.antt =====
-- What stands in memory: bytes and words, where they were written and after later writes elsewhere.
use native.Mathlib.Nat.{pow-suc}
use libtux.Base.{
  ℕ, zero, suc, ◌+◌, ◌-◌, ◌/◌, ◌^◌, ◌≤◌, ◌<◌, ◌≡◌, refl, ap, subst, ◌⊎◌, inl, inr, List, [], ◌∷◌,
  arith, length, get_or,
}
use libtux.World.{World, Run, ok, aborted, fault}
use libtux.World.Memory.{bytes_at, copy_to, le_bytes, from_le}
use libtux.World.Frame.{Kept, Keeps}

pub length-le_bytes : (n v : ℕ) → length (le_bytes n v) ≡ n
length-le_bytes zero v = refl
length-le_bytes (suc n) v = ap suc (length-le_bytes n (v / 256))

-- A number that fits is found again.
pub from_le-le_bytes : (n v : ℕ) → v < 256 ^ n → from_le (le_bytes n v) ≡ v
from_le-le_bytes zero v h = omega arith
from_le-le_bytes (suc n) v h =
    omega (arith, pow-suc 256 n, from_le-le_bytes n (v / 256) (omega (arith, pow-suc 256 n)))

pub bytes_at-get_or :
    (mem : ℕ → ℕ) (p : ℕ) (bs : List ℕ)
    → ((i : ℕ) → i < length bs → mem (p + i) ≡ get_or bs i 0)
    → bytes_at mem p (length bs) ≡ bs
bytes_at-get_or mem p [] h = refl
bytes_at-get_or mem p (b ∷ bs) h =
    let first : p + 0 ≡ p = omega arith in
    rw
      (
        subst (λ a. mem a ≡ b) first (h 0 (omega arith)),
        bytes_at-get_or mem (suc p) bs (λ i lt.
            let next : p + suc i ≡ suc p + i = omega arith in
            subst (λ a. mem a ≡ get_or bs i 0) next (h (suc i) (omega arith))),
      )
      refl

pub bytes_at-copy_to :
    (mem : ℕ → ℕ) (p : ℕ) (bs : List ℕ) → bytes_at (copy_to mem p bs) p (length bs) ≡ bs
bytes_at-copy_to mem p bs = bytes_at-get_or (copy_to mem p bs) p bs (λ i lt.
    let e : p + i - p ≡ i = omega arith in
    let same : get_or bs (p + i - p) 0 ≡ get_or bs i 0 = ap (λ j. get_or bs j 0) e in
    ground (arith, same))

pub bytes_at-frame :
    (m m' : ℕ → ℕ) (p n : ℕ)
    → ((a : ℕ) → p ≤ a → a < p + n → m' a ≡ m a)
    → bytes_at m' p n ≡ bytes_at m p n
bytes_at-frame m m' p zero h = refl
bytes_at-frame m m' p (suc n) h =
    rw
      (
        h p (omega arith) (omega arith),
        bytes_at-frame m m' (suc p) n (λ a le lt. h a (omega arith) (omega arith)),
      )
      refl

-- Outside of the range that was written to, the bytes stay.
pub bytes_at-Kept :
    (lo hi p n : ℕ) (u v : World)
    → Kept lo hi u v
    → (p + n ≤ lo) ⊎ (hi ≤ p)
    → bytes_at v.mem p n ≡ bytes_at u.mem p n
bytes_at-Kept lo hi p n u v kept (inl h) =
    bytes_at-frame u.mem v.mem p n (λ a le lt. kept.outside a (inl (omega arith)))
bytes_at-Kept lo hi p n u v kept (inr h) =
    bytes_at-frame u.mem v.mem p n (λ a le lt. kept.outside a (inr (omega arith)))

pub Kept-widen :
    (lo hi lo' hi' : ℕ) (u v : World) → lo' ≤ lo → hi ≤ hi' → Kept lo hi u v → Kept lo' hi' u v
Kept-widen lo hi lo' hi' u v h k kept = record {
  proc = kept.proc;
  fd_files = kept.fd_files;
  oracle = kept.oracle;
  host_files = kept.host_files;
  next = kept.next;
  outside = λ a out. kept.outside a (ground arith);
}

pub Keeps-widen :
    (lo hi lo' hi' : ℕ) {A : Type 0} (P : A → Type 0) (w : World) (r : Run A)
    → lo' ≤ lo
    → hi ≤ hi'
    → Keeps lo hi P w r
    → Keeps lo' hi' P w r
Keeps-widen lo hi lo' hi' P w (ok a v) h k (p, kept) = (p, Kept-widen lo hi lo' hi' w v h k kept)
Keeps-widen lo hi lo' hi' P w aborted h k keeps = tt
Keeps-widen lo hi lo' hi' P w fault h k keeps = elim keeps [ ]
