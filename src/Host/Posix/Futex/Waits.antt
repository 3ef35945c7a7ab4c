-- ===== src/Host/Posix/Futex/Waits.antt =====
-- Any number of threads in host_futexwait, the two locked parts of each in any order.
use libtux.Base.{ℕ, ◌≤◌, ◌<◌, ◌≡◌, refl, ap, sym, subst, List, [], ◌∷◌, none, some, arith, count}
use libtux.Host.Posix.Futex.{Lists, Futexes, wait_enter, wait_leave}
use libtux.Host.Posix.Futex.Linked.{IsLinked, Entered, wait_enter-Entered, wait_leave-IsLinked}

-- The futexes, and those that a thread is counted in.
pub record Waiting (lists : Lists) : Type 0 where
  pub futexes : Futexes lists
  pub inside : List ℕ

module _ (lists : Lists) where
  pub data Step (s : Waiting lists) : Waiting lists → Type 0 where
    enter :
        (uaddr f : ℕ) (v : Futexes lists)
        → wait_enter lists s.futexes uaddr ≡ (some f, v)
        → Step s (record { futexes = v; inside = f ∷ s.inside })
    full :
        (uaddr : ℕ) (v : Futexes lists)
        → wait_enter lists s.futexes uaddr ≡ (none, v)
        → Step s (record { futexes = v; inside = s.inside })
    leave :
        (f : ℕ) (rest : List ℕ)
        → ((i : ℕ) → count i s.inside ≡ count i (f ∷ rest))
        → Step s (record { futexes = wait_leave lists s.futexes f; inside = rest })

  pub data Reaches (s : Waiting lists) : Waiting lists → Type 0 where
    here : Reaches s s
    next : {v u : Waiting lists} → Reaches s v → Step v u → Reaches s u

  Reaches-trans : {s v u : Waiting lists} → Reaches s v → Reaches v u → Reaches s u
  Reaches-trans r here = r
  Reaches-trans r (next q st) = next (Reaches-trans r q) st

  module _ (pool : ℕ → ℕ) (once : (i : ℕ) → pool i ≤ 1) where
    abbrev pub Linked : Waiting lists → Type 0
    Linked s = IsLinked lists pool once s.futexes s.inside

    Step-Linked : {s v : Waiting lists} → Linked s → Step s v → Linked v
    Step-Linked {s} linked (enter uaddr f v e) =
        (subst (Entered lists pool once s.futexes s.inside uaddr) e
          (wait_enter-Entered lists pool once s.futexes s.inside linked uaddr)).0
    Step-Linked {s} linked (full uaddr v e) =
        subst (λ u. IsLinked lists pool once u s.inside)
          (sym (
            subst (Entered lists pool once s.futexes s.inside uaddr) e
              (wait_enter-Entered lists pool once s.futexes s.inside linked uaddr)))
          linked
    Step-Linked {s} linked (leave f rest same) =
        wait_leave-IsLinked lists pool once s.futexes s.inside linked f rest same

    -- In every order of waits.
    pub Reaches-Linked : {s v : Waiting lists} → Linked s → Reaches s v → Linked v
    Reaches-Linked linked here = linked
    Reaches-Linked linked (next r st) = Step-Linked (Reaches-Linked linked r) st

    none_active : (xs : List ℕ) → ((i : ℕ) → 0 < count i xs → 0 < count i []) → xs ≡ []
    none_active [] h = refl
    none_active (x ∷ xs) h = let no : 0 < 0 = h x (ground arith) in absurd (omega arith)

    -- The threads leave one after the other.
    drain :
        (inside : List ℕ) (fs : Futexes lists)
        → IsLinked lists pool once fs inside
        → (v : Waiting lists) × Reaches (record { futexes = fs; inside = inside }) v
          × Linked v
          × (v.inside ≡ [])
    drain [] fs linked = (record { futexes = fs; inside = [] }, here, linked, refl)
    drain (f ∷ rest) fs linked =
        let left = wait_leave-IsLinked lists pool once fs (f ∷ rest) linked f rest (λ i. refl) in
        let (v, r, l, e) = drain rest (wait_leave lists fs f) left in
        (v, Reaches-trans (next here (leave f rest (λ i. refl))) r, l, e)

    -- On a posix host, from linked lists, whatever order the locked parts of any waits have run in, the
    -- threads that are inside of a wait can leave one after the other, and then no futex is active and
    -- every futex is free again.
    pub Reaches-Drained :
        {s v : Waiting lists}
        → Linked s
        → Reaches s v
        → (u : Waiting lists) × Reaches v u
          × (u.inside ≡ [])
          × (lists.elements u.futexes.active ≡ [])
          × ((i : ℕ) → count i (lists.elements u.futexes.free) ≡ pool i)
    Reaches-Drained {s} {v} linked r =
        let (u, q, l, e) = drain v.inside v.futexes (Reaches-Linked linked r) in
        let empty : lists.elements u.futexes.active ≡ [] =
          none_active (lists.elements u.futexes.active)
            (λ i h. subst (λ ws. 0 < count i ws) e (l.counted i h).1) in
        (u, q, e, empty, λ i. ground (arith, l.split i, ap (count i) empty))
