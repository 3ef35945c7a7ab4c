-- ===== src/Host/Posix/Futex/Linked.antt =====
-- The two lists and the counts of waiters stay in step, whatever thread enters or leaves a wait.
use libtux.Base.{
  ℕ, ◌+◌, ◌-◌, ◌≤◌, ◌<◌, ◌≡◌, ◌≢◌, ◌==◌, refl, ap, sym, ◌∙◌, ◌⊎◌, subst, inl, inr, List, [], ◌∷◌,
  Option, none, some, arith, if◌then◌else◌, count, Bool-cases, true,
}
use libtux.Host.Posix.Futex.{
  head?, Lists, Futexes, update, with_waiters, futexfind, futexnew, futexfree, wait_enter,
  wait_leave,
}
use libtux.Host.Posix.Futex.Find.{find_in_cases, futexfind_lem, count-erase}

elements-cases : (xs : List ℕ) → (xs ≡ []) ⊎ ((x : ℕ) × (ys : List ℕ) × (xs ≡ x ∷ ys))
elements-cases [] = inl refl
elements-cases (x ∷ xs) = inr (x, xs, refl)

-- `pool i` is 1 for the futexes that are on one of the lists.
module _ (lists : Lists) (pool : ℕ → ℕ) (once : (i : ℕ) → pool i ≤ 1) where
  -- `ws` are the futexes that threads are counted in, between the two locks.
  pub record IsLinked (fs : Futexes lists) (ws : List ℕ) : Type 0 where
    pub split :
        (i : ℕ) → count i (lists.elements fs.active) + count i (lists.elements fs.free) ≡ pool i
    pub counted :
        (i : ℕ)
        → 0 < count i (lists.elements fs.active)
        → ((fs.mem i).waiters ≡ count i ws) × (0 < count i ws)
    pub resting : (i : ℕ) → count i (lists.elements fs.active) ≡ 0 → count i ws ≡ 0
    pub distinct :
        (i j : ℕ)
        → 0 < count i (lists.elements fs.active)
        → 0 < count j (lists.elements fs.active)
        → (fs.mem i).addr ≡ (fs.mem j).addr
        → i ≡ j

  -- A thread that found or made a futex is counted in it, at its address; one that got none changed
  -- nothing.
  abbrev pub Entered : Futexes lists → List ℕ → ℕ → Option ℕ × Futexes lists → Type 0
  Entered fs ws uaddr (none, v) = v ≡ fs
  Entered fs ws uaddr (some f, v) = IsLinked v (f ∷ ws) × ((v.mem f).addr ≡ uaddr)

  module _ (fs : Futexes lists) (ws : List ℕ) (linked : IsLinked fs ws) where
    joined :
        (f uaddr : ℕ)
        → 0 < count f (lists.elements fs.active)
        → (fs.mem f).addr ≡ uaddr
        → IsLinked (with_waiters lists fs f ((fs.mem f).waiters + 1)) (f ∷ ws)
    joined f uaddr among at = record {
      split = linked.split;
      counted = λ i h. ground (arith, linked.counted i h);
      resting = λ i h. ground (arith, linked.resting i h);
      distinct = λ i j hi hj e. linked.distinct i j hi hj (ground arith);
    }

    abbrev opened : ℕ → ℕ → Futexes lists
    opened f uaddr = record fs {
      active = lists.list_make_first fs.active f;
      free = lists.list_remove fs.free f;
      mem = update fs.mem f (record { addr = uaddr; waiters = 1 });
    }

    opened-IsLinked :
        (f uaddr : ℕ)
        → 0 < count f (lists.elements fs.free)
        → ((i : ℕ) → 0 < count i (lists.elements fs.active) → (fs.mem i).addr ≢ uaddr)
        → IsLinked (opened f uaddr) (f ∷ ws)
    opened-IsLinked f uaddr free fresh =
        let grown = lists.make_first_lem fs.active f in
        let shrunk = lists.remove_lem fs.free f in
        record {
          split = λ i.
              rw (grown, shrunk, count-erase i f (lists.elements fs.free))
                (ground (arith, linked.split i, once i));
          counted = λ i h. ground (
            arith,
            ap (count i) grown,
            linked.counted i,
            linked.split f,
            once f,
            linked.resting f,
          );
          resting = λ i h. ground (arith, ap (count i) grown, linked.resting i);
          distinct = λ i j hi hj e. ground (
            arith,
            ap (count i) grown,
            ap (count j) grown,
            linked.distinct i j,
            fresh i,
            fresh j,
          );
        }

    enter_found :
        (uaddr f : ℕ)
        → futexfind lists fs uaddr ≡ some f
        → wait_enter lists fs uaddr ≡ (some f, with_waiters lists fs f ((fs.mem f).waiters + 1))
    unfolding wait_enter
    enter_found uaddr f e = ground (arith, e)

    enter_full :
        (uaddr : ℕ)
        → futexfind lists fs uaddr ≡ none
        → lists.list_first fs.free ≡ none
        → wait_enter lists fs uaddr ≡ (none, fs)
    unfolding wait_enter futexnew
    enter_full uaddr e e' = ground (arith, e, e')

    enter_new :
        (uaddr f : ℕ)
        → futexfind lists fs uaddr ≡ none
        → lists.list_first fs.free ≡ some f
        → wait_enter lists fs uaddr ≡ (some f, opened f uaddr)
    unfolding wait_enter futexnew
    enter_new uaddr f e e' = ground (arith, e, e')

    pub wait_enter-Entered : (uaddr : ℕ) → Entered fs ws uaddr (wait_enter lists fs uaddr)
    wait_enter-Entered uaddr =
        let found = futexfind_lem lists fs uaddr (λ i. omega (arith, linked.split i, once i)) in
        let first = lists.first_lem fs.free in
        elim (find_in_cases fs.mem uaddr (lists.elements fs.active)) [
          | inl (n, fresh) ↦ elim (elements-cases (lists.elements fs.free)) [
            | inl e ↦
                subst (Entered fs ws uaddr)
                  (sym (enter_full uaddr (found ∙ n) (first ∙ ap head? e))) refl
            | inr (f, rest, e) ↦
                subst (Entered fs ws uaddr)
                  (sym (enter_new uaddr f (found ∙ n) (first ∙ ap head? e)))
                  (opened-IsLinked f uaddr (ground (arith, ap (count f) e)) fresh, ground arith)
          ]
          | inr (f, e, among, at) ↦
              subst (Entered fs ws uaddr) (sym (enter_found uaddr f (found ∙ e)))
                (joined f uaddr among at, ground (arith, at))
        ]

    closed :
        (f : ℕ) (rest : List ℕ)
        → ((i : ℕ) → count i ws ≡ count i (f ∷ rest))
        → 0 < count f ws
        → 0 < count f (lists.elements fs.active)
        → ((fs.mem f).waiters == 1) ≡ true
        → IsLinked
            (record fs {
              active = lists.list_remove fs.active f;
              free = lists.list_make_first fs.free f;
              mem = update fs.mem f (record (fs.mem f) { waiters = (fs.mem f).waiters - 1 });
            })
            rest
    closed f rest same here among one =
        let shrunk : (i : ℕ)
            → count i (lists.elements (lists.list_remove fs.active f)) ≡ (
                if i == f
                then count i (lists.elements fs.active) - 1
                else count i (lists.elements fs.active)) =
          λ i.
            ap (count i) (lists.remove_lem fs.active f)
            ∙ count-erase i f (lists.elements fs.active) in
        let grown = lists.make_first_lem fs.free f in
        record {
          split = λ i. ground (arith, shrunk i, ap (count i) grown, linked.split i, once i);
          counted =
              λ i h. ground (arith, shrunk i, linked.split f, once f, linked.counted i, same i);
          resting = λ i h.
              ground (
                arith,
                shrunk i,
                linked.resting i,
                linked.counted f,
                linked.split f,
                once f,
                same i,
              );
          distinct = λ i j hi hj eq.
              ground (arith, shrunk i, shrunk j, linked.distinct i j, linked.split f, once f);
        }

    -- The futex that a thread was counted in is left, and freed by the last one.
    pub wait_leave-IsLinked :
        (f : ℕ) (rest : List ℕ)
        → ((i : ℕ) → count i ws ≡ count i (f ∷ rest))
        → IsLinked (wait_leave lists fs f) rest
    unfolding wait_leave futexfree
    wait_leave-IsLinked f rest same =
        let here : 0 < count f ws = ground (arith, same f) in
        let among : 0 < count f (lists.elements fs.active) = ground (arith, linked.resting f) in
        elim (Bool-cases ((fs.mem f).waiters == 1)) [
          | inl e ↦ rw e (closed f rest same here among e)
          | inr e ↦ rw e (record {
            split = linked.split;
            counted = λ i h. ground (arith, linked.counted i h, same i);
            resting = λ i h. ground (arith, linked.resting i h, same i);
            distinct = λ i j hi hj eq. linked.distinct i j hi hj (ground arith);
          })
        ]
