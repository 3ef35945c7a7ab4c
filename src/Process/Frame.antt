-- ===== src/Process/Frame.antt =====
-- The stack of a new process has the layout that a program expects.
use libtux.Base.{
  ℕ, suc, ◌+◌, ◌*◌, ◌≤◌, ◌<◌, ◌≡◌, refl, ap, ◌∙◌, subst, ◌⊎◌, inl, inr, true, false, Bool-cases,
  ◌&&◌, List, [], ◌∷◌, ◌++◌, All, Option, none, some, arith, length, leb, ltb,
}
use libtux.World.{Ptr, AddrSpace, World}
use libtux.World.Memory.{bytes_at, copy_to, le_bytes, from_le}
use libtux.World.Total.{Holds, Holds-bind, Holds-weaken}
use libtux.World.Frame.{Kept, Kept-refl, Kept-trans, Kept-copy_to}
use libtux.World.Words.{from_le-le_bytes, bytes_at-copy_to, bytes_at-Kept, Kept-widen}
use libtux.Align.{word_mod}
use libtux.AddrSpace.{as_toptr}
use libtux.Process.Stack.{argc_max, c_string, string_loop, word_at, pointer_loop, store_words}

-- The words from `a` on.
abbrev pub WordsAt : (ℕ → ℕ) → Ptr → List ℕ → Type 0
WordsAt mem a [] = Unit
WordsAt mem a (v ∷ vs) = (word_at mem a ≡ v) × WordsAt mem (a + 8) vs

-- Each pointer points to its string, between `lo` and `hi`.
abbrev pub StringsAt : (ℕ → ℕ) → ℕ → ℕ → List Ptr → List (List ℕ) → Type 0
StringsAt mem lo hi [] [] = Unit
StringsAt mem lo hi [] (s ∷ ss) = ⊥
StringsAt mem lo hi (p ∷ ps) [] = ⊥
StringsAt mem lo hi (p ∷ ps) (s ∷ ss) =
    (bytes_at mem p (length (c_string s)) ≡ c_string s)
    × (lo ≤ p)
    × (p + length (c_string s) < hi)
    × StringsAt mem lo hi ps ss

abbrev pub IsWord : ℕ → Type 0
IsWord v = v < word_mod

word_at-bytes :
    (m m' : ℕ → ℕ) (a : ℕ) → bytes_at m' a 8 ≡ bytes_at m a 8 → word_at m' a ≡ word_at m a
unfolding word_at
word_at-bytes m m' a e = ap from_le e

pub WordsAt-Kept :
    (lo hi a : ℕ) (u v : World) (vs : List ℕ)
    → Kept lo hi u v
    → (a + 8 * length vs ≤ lo) ⊎ (hi ≤ a)
    → WordsAt u.mem a vs
    → WordsAt v.mem a vs
WordsAt-Kept lo hi a u v [] kept out h = tt
WordsAt-Kept lo hi a u v (x ∷ vs) kept out (e, h) = (
  word_at-bytes u.mem v.mem a (bytes_at-Kept lo hi a 8 u v kept (ground arith)) ∙ e,
  WordsAt-Kept lo hi (a + 8) u v vs kept (ground arith) h,
)

pub WordsAt-append :
    (mem : ℕ → ℕ) (a : ℕ) (xs ys : List ℕ)
    → WordsAt mem a xs
    → WordsAt mem (a + 8 * length xs) ys
    → WordsAt mem a (xs ++ ys)
WordsAt-append mem a [] ys h k = subst (λ b. WordsAt mem b ys) (omega arith) k
WordsAt-append mem a (x ∷ xs) ys (e, h) k =
    (e, WordsAt-append mem (a + 8) xs ys h (subst (λ b. WordsAt mem b ys) (omega arith) k))

pub StringsAt-Kept :
    (lo hi from to : ℕ) (u v : World) (ps : List Ptr) (ss : List (List ℕ))
    → Kept lo hi u v
    → (hi ≤ from)
    → StringsAt u.mem from to ps ss
    → StringsAt v.mem from to ps ss
StringsAt-Kept lo hi from to u v [] [] kept out h = tt
StringsAt-Kept lo hi from to u v [] (s ∷ ss) kept out h = h
StringsAt-Kept lo hi from to u v (p ∷ ps) [] kept out h = h
StringsAt-Kept lo hi from to u v (p ∷ ps) (s ∷ ss) kept out (e, a, b, h) = (
  bytes_at-Kept lo hi p (length (c_string s)) u v kept (inr (omega arith)) ∙ e,
  a,
  b,
  StringsAt-Kept lo hi from to u v ps ss kept out h,
)

-- One word is written.
abbrev pub stored : World → Ptr → ℕ → World
stored w a v = record w { mem = copy_to w.mem a (le_bytes 8 v) }

stored-Kept : (w : World) (a v : ℕ) → Kept a (a + 8) w (stored w a v)
stored-Kept w a v = Kept-copy_to a (a + 8) w a (le_bytes 8 v) (omega arith) (omega arith)

word_at-stored : (w : World) (a v : ℕ) → IsWord v → word_at (stored w a v).mem a ≡ v
unfolding word_at
word_at-stored w a v h =
    ap from_le (bytes_at-copy_to w.mem a (le_bytes 8 v)) ∙ from_le-le_bytes 8 v h

-- The words are written, and nothing else.
abbrev pub Laid : World → Ptr → List ℕ → World → Type 0
Laid w a vs v = Kept a (a + 8 * length vs) w v × WordsAt v.mem a vs

pub Laid-cons :
    (w : World) (a x : ℕ) (vs : List ℕ) (v : World)
    → IsWord x
    → Laid (stored w a x) (a + 8) vs v
    → Laid w a (x ∷ vs) v
Laid-cons w a x vs v word (kept, h) = (
  Kept-trans a (a + 8 * length (x ∷ vs)) w (stored w a x) v
      (Kept-widen a (a + 8) a (a + 8 * length (x ∷ vs)) w (stored w a x) (omega arith) (omega arith)
        (stored-Kept w a x))
      (Kept-widen (a + 8) (a + 8 + 8 * length vs) a (a + 8 * length (x ∷ vs)) (stored w a x) v
        (omega arith) (omega arith) kept),
  (
    word_at-bytes (stored w a x).mem v.mem a (
          bytes_at-Kept (a + 8) (a + 8 + 8 * length vs) a 8 (stored w a x) v kept
            (inl (omega arith)))
        ∙ word_at-stored w a x word,
    h,
  ),
)

pub store_words-Laid :
    (w : World) (a : ℕ) (vs : List ℕ)
    → All IsWord vs
    → Holds (λ _ v. Laid w a vs v) (store_words a vs w)
unfolding store_words
store_words-Laid w a [] all = (Kept-refl a (a + 0) w, tt)
store_words-Laid w a (x ∷ vs) (word, all) =
    Holds-weaken _ _ (store_words (a + 8) vs (stored w a x))
      (store_words-Laid (stored w a x) (a + 8) vs all) λ _ v h. Laid-cons w a x vs v word h

-- The bytes that the strings take.
abbrev pub total : List (List ℕ) → ℕ
total [] = 0
total (s ∷ ss) = length (c_string s) + total ss

-- The strings, from `at` to `top`; none if they do not end before it.
module _ (from top : ℕ) where
  abbrev pub StringsDone : World → ℕ → List (List ℕ) → Option (List Ptr) → World → Type 0
  StringsDone w at ss none v = Kept at top w v × (top ≤ at + total ss)
  StringsDone w at ss (some ps) v =
      Kept at top w v × StringsAt v.mem from top ps ss × (length ps ≡ length ss)

  module _ (w : World) (at : ℕ) (s : List ℕ) (ss : List (List ℕ))
      (room : at + length (c_string s) < top) (above : from ≤ at) where
    abbrev string_there : World
    string_there = record w { mem = copy_to w.mem at (c_string s) }

    -- The memory from the first string on.
    string-Kept : (v : World) → Kept (at + length (c_string s)) top string_there v → Kept at top w v
    string-Kept v kept =
        Kept-trans at top w string_there v
          (Kept-copy_to at top w at (c_string s) (omega arith) (omega arith))
          (Kept-widen (at + length (c_string s)) top at top string_there v (omega arith)
            (omega arith) kept)

    string-StringsDone :
        (r : Option (List Ptr)) (v : World)
        → StringsDone string_there (at + length (c_string s)) ss r v
        → StringsDone w at (s ∷ ss) (elim r [ none ↦ none | some ps ↦ some (at ∷ ps) ]) v
    string-StringsDone none v (kept, le) = (string-Kept v kept, omega arith)
    string-StringsDone (some ps) v (kept, strings, e) = (
      string-Kept v kept,
      (
        bytes_at-Kept (at + length (c_string s)) top at (length (c_string s)) string_there v kept
              (inl (omega arith))
            ∙ bytes_at-copy_to w.mem at (c_string s),
        above,
        room,
        strings,
      ),
      ap suc e,
    )

  pub string_loop-StringsDone :
      (i at : ℕ) (ss : List (List ℕ)) (w : World)
      → i + length ss ≤ argc_max
      → from ≤ at
      → at ≤ top
      → Holds (StringsDone w at ss) (string_loop top i at ss w)
  unfolding string_loop
  string_loop-StringsDone i at [] w few above h = (Kept-refl at top w, tt, refl)
  string_loop-StringsDone i at (s ∷ ss) w few above h =
      elim (Bool-cases (leb top (at + length (c_string s)))) [
        | inl e ↦ rw e (Kept-refl at top w, ground arith)
        | inr e ↦
            let room : at + length (c_string s) < top = ground arith in
            let below : leb argc_max i ≡ false = ground arith in
            let u = string_there w at s ss room above in
            rw (e, below)
              (Holds-bind (StringsDone u (at + length (c_string s)) ss) (StringsDone w at (s ∷ ss))
                (string_loop top (suc i) (at + length (c_string s)) ss u) _
                (string_loop-StringsDone (suc i) (at + length (c_string s)) ss u (omega arith)
                  (omega arith) (omega arith))
                (string-StringsDone w at s ss room above))
      ]

-- Where every pointer lies in the space, they are written as they are.
pub pointer_loop-Laid :
    (space : AddrSpace) (limit start : ℕ) (w : World) (a : ℕ) (ps : List Ptr)
    → start < limit
    → space.maxaddr < word_mod
    → All (λ p. (space.minaddr ≤ p) × (p < space.maxaddr)) ps
    → Holds (λ r v. (r ≡ true) × Laid w a ps v) (pointer_loop space limit start a ps w)
unfolding pointer_loop as_toptr
pointer_loop-Laid space limit start w a [] lt small all = (refl, (Kept-refl a (a + 0) w, tt))
pointer_loop-Laid space limit start w a (p ∷ ps) lt small (at, all) =
    let go : leb limit start ≡ false = ground arith in
    let inside : (leb space.minaddr p && ltb p space.maxaddr) ≡ true = ground arith in
    rw (go, inside)
      (Holds-weaken _ _ (pointer_loop space limit start (a + 8) ps (stored w a p))
        (pointer_loop-Laid space limit start (stored w a p) (a + 8) ps lt small all)
        λ r v (e, h). (e, Laid-cons w a p ps v (omega arith) h))
