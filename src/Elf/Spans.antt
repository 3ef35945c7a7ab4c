-- ===== src/Elf/Spans.antt =====
-- The loop over the program headers: what it writes to, and the end that it reports.
use libtux.Base.{
  ℕ, ◌+◌, ◌*◌, ◌%◌, ◌^◌, ◌≤◌, ◌<◌, ◌≡◌, sym, true, false, Bool-cases, inl, inr, List, [], ◌∷◌, All,
  Option, none, some, Option-cases, arith, ◌==◌, subst, if◌then◌else◌,
}
use native.Mathlib.Nat.{le_refl, one-le-pow}
use libtux.World.{World, pure, ◌>>=◌}
use libtux.World.Frame.{Kept-refl, Keeps, Keeps-bind, Keeps-weaken}
use libtux.Align.{word_mod}
use libtux.AddrSpace.Placed.{MapsWhereAsked}
use libtux.Elf.{ProgHeader, Segment, segment, codemax, word_sub, pflags, et_exec}
use libtux.Elf.Load.{Loading, Progress, is_loaded, shift, place, advance, load_loop}
use libtux.Elf.Bounds.{NoWrap, IsPlaced, moved, segment-IsPlaced}
use libtux.Elf.Confined.{InFile, bufreadelfseg-Keeps}

-- The addresses and the part in the file do not wrap, and that part begins in the file.
abbrev pub IsTame : Loading → ProgHeader → Type 0
IsTame l p = NoWrap p × InFile l.buf p.offset p.filesz

module _ (l : Loading) (base k m : ℕ) (split : 2 ^ k * 2 ^ m ≡ word_mod) (page : l.pagesize ≡ 2 ^ k)
    (base_pos : 0 < base) (room : base + codemax < word_mod) where
  -- How far below its addresses the program is put.
  abbrev pub down : ℕ
  down = moved (l.type == et_exec) (word_sub base l.space.base)

  -- The segment in memory ends before `last`, which is beyond the base.
  abbrev pub EndsBy : ℕ → ProgHeader → Type 0
  EndsBy last p = is_loaded p ≡ true → (base < last) × (base + (p.vaddr + p.memsz) ≤ last + down)

  -- What the loop over `ps` makes of `st`.
  abbrev pub Covers : Progress → List ProgHeader → Option Progress → Type 0
  Covers st ps none = Unit
  Covers st ps (some v) =
      (v.base ≡ base)
      × (st.last ≤ v.last)
      × (st.last ≤ base + codemax → v.last ≤ base + codemax)
      × (st.first < word_mod → v.first < word_mod)
      × All (EndsBy v.last) ps

  -- One segment in place.
  advance_lem :
      (p : ProgHeader) (s : Segment) (st : Progress)
      → st.base ≡ base
      → IsPlaced (2 ^ k) down p s
      → let v = advance l.elfbase p s st in
        (v.base ≡ base)
        × (st.last ≤ v.last)
        × (base + s.stop ≤ v.last)
        × (st.last ≤ base + codemax → v.last ≤ base + codemax)
        × (st.first < word_mod → v.first < word_mod)
  unfolding advance
  advance_lem p s st at placed = ground arith

  picked :
      (p : ProgHeader) (s : Segment) (st : Progress)
      → st.base ≡ base
      → IsTame l p
      → segment l.pagesize (l.type == et_exec) (shift l st) p ≡ some s
      → IsPlaced (2 ^ k) down p s
  picked p s st at tame e =
      segment-IsPlaced k m split p tame.0 (l.type == et_exec) (word_sub base l.space.base) s (
        subst (λ b. segment (2 ^ k) (l.type == et_exec) (word_sub b l.space.base) p ≡ some s) at
          (subst (λ n. segment n (l.type == et_exec) (shift l st) p ≡ some s) page e))

  place-Keeps :
      (p : ProgHeader) (s : Segment) (st : Progress) (w : World)
      → st.base ≡ base
      → IsPlaced (2 ^ k) down p s
      → IsTame l p
      → MapsWhereAsked w.oracle
      → Keeps base (base + codemax) (λ _. Unit) w (place l st p s w)
  unfolding place
  place-Keeps p s st w at placed tame maps =
      bufreadelfseg-Keeps base (base + codemax) room l.safe l.space ((st.base + s.start) % word_mod)
        s.offset ((st.base + s.stop) % word_mod) p.offset p.filesz (pflags p.flags) l.buf l.pagesize
        w maps (ground (arith, placed, room)) (ground (arith, placed, room))
        (ground (arith, placed, room)) (ground (arith, placed, room)) tame.1

  Covers-cons :
      (p : ProgHeader) (s : Segment) (ps : List ProgHeader) (st : Progress)
      → IsPlaced (2 ^ k) down p s
      → st.last ≤ (advance l.elfbase p s st).last
      → base + s.stop ≤ (advance l.elfbase p s st).last
      → (st.last ≤ base + codemax → (advance l.elfbase p s st).last ≤ base + codemax)
      → (st.first < word_mod → (advance l.elfbase p s st).first < word_mod)
      → (o : Option Progress) → Covers (advance l.elfbase p s st) ps o
      → Covers st (p ∷ ps) o
  Covers-cons p s ps st placed grows ends below word none h = tt
  Covers-cons p s ps st placed grows ends below word (some v) (b, g, t, f, all) = (
    b,
    omega arith,
    λ h. t (below h),
    λ h. f (word h),
    (λ _. (omega (arith, placed, one-le-pow k 2 (omega arith)), omega (arith, placed)), all),
  )

  Covers-skip :
      (p : ProgHeader) (ps : List ProgHeader) (st : Progress)
      → is_loaded p ≡ false
      → (o : Option Progress) → Covers st ps o
      → Covers st (p ∷ ps) o
  Covers-skip p ps st e none h = tt
  Covers-skip p ps st e (some v) (b, g, t, f, all) = (b, g, t, f, (λ e'. absurd cc, all))

  -- A segment that was put in place, and the loop over those behind it.
  placed_then :
      (p : ProgHeader) (s : Segment) (ps : List ProgHeader) (st : Progress) (w : World)
      → st.base ≡ base
      → IsPlaced (2 ^ k) down p s
      → IsTame l p
      → MapsWhereAsked w.oracle
      → ((v : World)
          → MapsWhereAsked v.oracle
          → Keeps base
              (base + codemax)
              (Covers (advance l.elfbase p s st) ps)
              v
              (load_loop l ps (advance l.elfbase p s st) v))
      → Keeps base (base + codemax) (Covers st (p ∷ ps)) w (
          (do
            done ← place l st p s
            if done then load_loop l ps (advance l.elfbase p s st) else pure none)
            w)
  placed_then p s ps st w at placed tame maps rest =
      let (same, grows, ends, below, word) = advance_lem p s st at placed in
      Keeps-bind base (base + codemax) (λ _. Unit) (Covers st (p ∷ ps)) w (place l st p s w) _
        (place-Keeps p s st w at placed tame maps)
        λ done v _ kept.
          elim done
            as (λ d.
              Keeps base (base + codemax) (Covers st (p ∷ ps)) v
                ((if d then load_loop l ps (advance l.elfbase p s st) else pure none) v)) [
                  | true ↦
                      Keeps-weaken base (base + codemax) (Covers (advance l.elfbase p s st) ps)
                        (Covers st (p ∷ ps)) v (load_loop l ps (advance l.elfbase p s st) v)
                        (rest v (subst MapsWhereAsked (sym kept.oracle) maps))
                        (Covers-cons p s ps st placed grows ends below word)
                  | false ↦ (tt, Kept-refl base (base + codemax) v)
                ]

  pub load_loop-Covers :
      (ps : List ProgHeader) (st : Progress) (w : World)
      → st.base ≡ base
      → All (IsTame l) ps
      → MapsWhereAsked w.oracle
      → Keeps base (base + codemax) (Covers st ps) w (load_loop l ps st w)
  unfolding load_loop
  load_loop-Covers [] st w at tame maps = ((at, le_refl _, λ h. h, λ h. h, tt), Kept-refl _ _ w)
  load_loop-Covers (p ∷ ps) st w at (tame, more) maps = elim (Bool-cases (is_loaded p)) [
    | inl e ↦ rw e (elim (Option-cases (segment l.pagesize (l.type == et_exec) (shift l st) p)) [
      | inl e' ↦ rw e' (tt, Kept-refl _ _ w)
      | inr (s, e') ↦
          let placed : IsPlaced (2 ^ k) down p s = picked p s st at tame e' in
          rw e' (
            placed_then p s ps st w at placed tame maps (λ v maps'.
              load_loop-Covers ps (advance l.elfbase p s st) v (advance_lem p s st at placed).0 more
                maps'))
    ])
    | inr e ↦ rw e (
        Keeps-weaken _ _ (Covers st ps) (Covers st (p ∷ ps)) w (load_loop l ps st w)
          (load_loop-Covers ps st w at more maps) (Covers-skip p ps st e))
  ]
