-- ===== src/Fd/Alloc.antt =====
-- fdalloc finds the least free descriptor.
use libtux.Base.{
  ℕ, zero, suc, ◌+◌, ◌≤◌, ◌<◌, ◌≡◌, ◌≢◌, ◌⊎◌, inl, inr, refl, List, get_or, arith, ℤ, pos, neg,
  ◌==◌, Bool-cases, subst,
}
use libtux.World.{Ptr, null, World, ok}
use libtux.Fd.{alloc_loop, fdalloc, nofile}

-- `i` is the first free index from `lo` on, below `hi`.
pub record IsFirstFree (files : List Ptr) (lo hi i : ℕ) : Type 0 where
  pub from : lo ≤ i
  pub below : i < hi
  pub free : get_or files i null ≡ null
  pub first : (j : ℕ) → lo ≤ j → j < i → get_or files j null ≢ null

abbrev pub Found : List Ptr → ℕ → ℕ → ℤ → Type 0
Found files lo hi r =
    ((i : ℕ) × (r ≡ pos i) × IsFirstFree files lo hi i)
    ⊎ ((r ≡ neg 1) × ((j : ℕ) → lo ≤ j → j < hi → get_or files j null ≢ null))

-- The range grows at its lower end by an index that is taken.
Found-suc :
    (files : List Ptr) (lo hi : ℕ) (r : ℤ)
    → get_or files lo null ≢ null
    → Found files (suc lo) hi r
    → Found files lo hi r
Found-suc files lo hi r taken (inl (i, e, f)) = inl (
  i,
  e,
  record {
    from = omega (arith, f.from);
    below = f.below;
    free = f.free;
    first = λ j a b. ground (arith, f.first j);
  },
)
Found-suc files lo hi r taken (inr (e, full)) = inr (e, λ j a b. ground (arith, full j))

alloc_loop-Found : (k i : ℕ) (files : List Ptr) → Found files i (i + k) (alloc_loop k i files)
unfolding alloc_loop
alloc_loop-Found zero i files = inr (refl, λ j a b. absurd (omega arith))
alloc_loop-Found (suc k) i files = elim (Bool-cases (get_or files i null == null)) [
  | inl e ↦ rw e (
      inl (
        i,
        refl,
        record {
          from = omega arith;
          below = omega arith;
          free = ground arith;
          first = λ j a b. absurd (omega arith);
        },
      ))
  | inr e ↦ rw e (
      Found-suc files i (i + suc k) _ (ground arith) (
        subst (λ h. Found files (suc i) h (alloc_loop k (suc i) files)) (omega arith)
          (alloc_loop-Found k (suc i) files)))
]

-- fdalloc answers the least free descriptor below TUX_NOFILE, or -1 exactly when none is free. It
-- changes nothing.
pub fdalloc-Found : (w : World) → (r : ℤ) × (fdalloc w ≡ ok r w) × Found w.proc.files 0 nofile r
unfolding fdalloc
fdalloc-Found w = (alloc_loop nofile 0 w.proc.files, refl, alloc_loop-Found nofile 0 w.proc.files)
