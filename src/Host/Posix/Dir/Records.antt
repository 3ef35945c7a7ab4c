-- ===== src/Host/Posix/Dir/Records.antt =====
-- What host_getdents64 of a posix host leaves in the buffer: one record after the other.
use mathlib.Core.List.{append_assoc}
use mathlib.Core.Path.{ap₂}
use libtux.Base.{
  ℕ, zero, suc, ◌+◌, ◌-◌, ◌≤◌, ◌<◌, ◌≡◌, ◌⊎◌, inl, inr, refl, ap, sym, ◌∙◌, subst, List, [], ◌∷◌,
  ◌++◌, arith, length, take, get_or, replicate, length-append, Bool-cases, ltb,
}
use libtux.World.Memory.{bytes_at, copy_to}
use libtux.World.Words.{bytes_at-get_or, bytes_at-frame}
use libtux.World.Fields.{encode}
use libtux.Align.{ceilp_lem}
use libtux.Host.Posix.Dir.{DirEntry, name_len, reclen, dirent_head, dirent_bytes, getdents_loop}

-- A record is padded to a multiple of 8, with a NUL behind its name.
pub reclen_bounds :
    (e : DirEntry) → (20 + name_len e ≤ reclen e) × (reclen e < 28 + name_len e) × (reclen e ≤ 280)
unfolding reclen
reclen_bounds e =
    rw (ceilp_lem 3 61 refl (8 + 8 + 2 + 1 + name_len e + 1) (ground arith)) (ground arith)

-- The part of a `struct Dirent` that the next one does not overwrite.
abbrev pub dirent_record : DirEntry → List ℕ
dirent_record e =
    encode (dirent_head e)
    ++ take (name_len e) e.d_name
    ++ replicate (reclen e - (19 + name_len e)) 0

abbrev pub records : List DirEntry → List ℕ
records [] = []
records (e ∷ es) = dirent_record e ++ records es

length-take : (n : ℕ) (xs : List ℕ) → n ≤ length xs → length (take n xs) ≡ n
length-take zero xs h = refl
length-take (suc n) [] h = absurd (omega arith)
length-take (suc n) (x ∷ xs) h = ap suc (length-take n xs (omega arith))

pub length-replicate : (n a : ℕ) → length (replicate n a) ≡ n
length-replicate zero a = refl
length-replicate (suc n) a = ap suc (length-replicate n a)

replicate-add : (n m a : ℕ) → replicate (n + m) a ≡ replicate n a ++ replicate m a
replicate-add zero m a = ap (λ k. replicate k a) (omega arith)
replicate-add (suc n) m a =
    let e : suc n + m ≡ suc (n + m) = omega arith in
    ap (λ k. replicate k a) e ∙ ap (λ t. a ∷ t) (replicate-add n m a)

pub length-head : (e : DirEntry) → length (encode (dirent_head e)) ≡ 19
length-head e = refl

pub length-name : (e : DirEntry) → length (take (name_len e) e.d_name) ≡ name_len e
length-name e = length-take (name_len e) e.d_name (ground arith)

pub length-dirent_record : (e : DirEntry) → length (dirent_record e) ≡ reclen e
length-dirent_record e =
    let name = take (name_len e) e.d_name in
    let pad : List ℕ = replicate (reclen e - (19 + name_len e)) 0 in
    omega (
      arith,
      length-append (encode (dirent_head e)) (name ++ pad),
      length-append name pad,
      length-head e,
      length-name e,
      length-replicate (reclen e - (19 + name_len e)) 0,
      reclen_bounds e,
    )

-- The whole struct is the record, and zeros.
dirent_bytes-eq : (e : DirEntry) → dirent_bytes e ≡ dirent_record e ++ replicate (280 - reclen e) 0
unfolding dirent_bytes
dirent_bytes-eq e =
    let name = take (name_len e) e.d_name in
    let pad : List ℕ = replicate (reclen e - (19 + name_len e)) 0 in
    let tail : List ℕ = replicate (280 - reclen e) 0 in
    let parts : 261 - name_len e ≡ (reclen e - (19 + name_len e)) + (280 - reclen e) =
      omega (arith, reclen_bounds e) in
    ap (λ k. encode (dirent_head e) ++ name ++ replicate k 0) parts
    ∙ ap (λ t. encode (dirent_head e) ++ name ++ t)
        (replicate-add (reclen e - (19 + name_len e)) (280 - reclen e) 0)
    ∙ ap (λ t. encode (dirent_head e) ++ t) (sym (append_assoc name pad tail))
    ∙ sym (append_assoc (encode (dirent_head e)) (name ++ pad) tail)

get_or-append : (xs ys : List ℕ) (i : ℕ) → i < length xs → get_or (xs ++ ys) i 0 ≡ get_or xs i 0
get_or-append [] ys i h = absurd (omega arith)
get_or-append (x ∷ xs) ys zero h = refl
get_or-append (x ∷ xs) ys (suc i) h = get_or-append xs ys i (omega arith)

-- The first bytes of what was copied.
bytes_at-copied :
    (mem : ℕ → ℕ) (p : ℕ) (xs ys : List ℕ) → bytes_at (copy_to mem p (xs ++ ys)) p (length xs) ≡ xs
bytes_at-copied mem p xs ys = bytes_at-get_or (copy_to mem p (xs ++ ys)) p xs (λ i lt.
    let e : p + i - p ≡ i = omega arith in
    let same : get_or (xs ++ ys) (p + i - p) 0 ≡ get_or xs i 0 =
      ap (λ j. get_or (xs ++ ys) j 0) e ∙ get_or-append xs ys i lt in
    ground (arith, same, length-append xs ys))

bytes_at-append :
    (mem : ℕ → ℕ) (p n m : ℕ) → bytes_at mem p (n + m) ≡ bytes_at mem p n ++ bytes_at mem (p + n) m
bytes_at-append mem p zero m =
    let e : p + 0 ≡ p = omega arith in let e' : 0 + m ≡ m = omega arith in rw (e, e') refl
bytes_at-append mem p (suc n) m =
    let e : p + suc n ≡ suc p + n = omega arith in
    let e' : suc n + m ≡ suc (n + m) = omega arith in
    rw (e, e', bytes_at-append mem (suc p) n m) refl

pub total : List DirEntry → ℕ
total [] = 0
total (e ∷ es) = reclen e + total es

module _ (count dirp : ℕ) where
  -- The buffer holds the records of the entries that were taken: all, or as many as fill it.
  pub record IsFilled (written : ℕ) (mem : ℕ → ℕ) (es : List DirEntry) (r : ℕ × (ℕ → ℕ))
      : Type 0 where
    pub taken : List DirEntry
    pub left : List DirEntry
    pub parts : es ≡ taken ++ left
    pub size : r.0 ≡ written + total taken
    pub before : (a : ℕ) → a < dirp + written → r.1 a ≡ mem a
    pub holds : bytes_at r.1 (dirp + written) (total taken) ≡ records taken
    pub enough : (left ≡ []) ⊎ (count ≤ r.0)

  nothing-IsFilled :
      (written : ℕ) (mem : ℕ → ℕ) (es : List DirEntry)
      → (es ≡ []) ⊎ (count ≤ written)
      → IsFilled written mem es (written, mem)
  unfolding total
  nothing-IsFilled written mem es enough = record {
    taken = [];
    left = es;
    parts = refl;
    size = omega arith;
    before = λ a h. refl;
    holds = refl;
    enough = enough;
  }

  -- One entry, and those behind it.
  cons-IsFilled :
      (written : ℕ) (mem : ℕ → ℕ) (e : DirEntry) (es : List DirEntry) (r : ℕ × (ℕ → ℕ))
      → IsFilled (written + reclen e) (copy_to mem (dirp + written) (dirent_bytes e)) es r
      → IsFilled written mem (e ∷ es) r
  unfolding total
  cons-IsFilled written mem e es r more = record {
    taken = e ∷ more.taken;
    left = more.left;
    parts = ap (λ t. e ∷ t) more.parts;
    size = omega (arith, more.size);
    before = λ a h. more.before a (omega (arith, reclen_bounds e)) ∙ ground arith;
    holds =
        bytes_at-append r.1 (dirp + written) (reclen e) (total more.taken)
        ∙ ap₂ (λ xs ys. xs ++ ys) first
            (subst (λ p. bytes_at r.1 p (total more.taken) ≡ records more.taken) next more.holds);
    enough = more.enough;
  }
    where
      m1 : ℕ → ℕ
      m1 = copy_to mem (dirp + written) (dirent_bytes e)

      next : dirp + (written + reclen e) ≡ dirp + written + reclen e
      next = omega arith

      copied : bytes_at m1 (dirp + written) (reclen e) ≡ dirent_record e
      copied =
          subst
            (λ bs.
              bytes_at (copy_to mem (dirp + written) bs) (dirp + written) (reclen e)
              ≡ dirent_record e)
            (sym (dirent_bytes-eq e))
            (subst
              (λ n.
                bytes_at
                  (copy_to mem (dirp + written) (dirent_record e ++ replicate (280 - reclen e) 0))
                  (dirp + written) n
                ≡ dirent_record e)
              (length-dirent_record e)
              (bytes_at-copied mem (dirp + written) (dirent_record e)
                (replicate (280 - reclen e) 0)))

      first : bytes_at r.1 (dirp + written) (reclen e) ≡ dirent_record e
      first =
          bytes_at-frame m1 r.1 (dirp + written) (reclen e) (λ a le lt. more.before a (omega arith))
          ∙ copied

  pub getdents_loop-IsFilled :
      (written : ℕ) (es : List DirEntry) (mem : ℕ → ℕ)
      → IsFilled written mem es (getdents_loop count dirp written es mem)
  unfolding getdents_loop
  getdents_loop-IsFilled written [] mem = nothing-IsFilled written mem [] (inl refl)
  getdents_loop-IsFilled written (e ∷ es) mem = elim (Bool-cases (ltb written count)) [
    | inl more ↦ rw more (
        cons-IsFilled written mem e es _ (
          getdents_loop-IsFilled (written + reclen e) es
            (copy_to mem (dirp + written) (dirent_bytes e))))
    | inr full ↦ rw full (nothing-IsFilled written mem (e ∷ es) (inr (ground arith)))
  ]
