-- ===== src/Tests/Waits.antt =====
-- Three threads that wait at two addresses, on lists that are just lists.
use libtux.Base.{
  ℕ, ◌≤◌, ◌≡◌, ◌==◌, refl, List, [], ◌∷◌, ◌++◌, Option, none, some, arith, count, if◌then◌else◌,
  ltb,
}
use libtux.Host.Posix.Futex.{
  Lists, Futexes, head?, erase, find_loop, futexfind, futexnew, futexfree, wait_enter, wait_leave,
  host_futexwait,
}
use libtux.Host.Posix.Futex.Linked.{IsLinked}
use libtux.Host.Posix.Futex.Waits.{Waiting, Step, Reaches}

-- What stands behind `e`.
after : List ℕ → ℕ → Option ℕ
after [] e = none
after (x ∷ xs) e = if x == e then head? xs else after xs e

after_lem :
    (l xs : List ℕ) (e : ℕ) (ys : List ℕ) → l ≡ xs ++ e ∷ ys → count e xs ≡ 0 → after l e ≡ head? ys
unfolding after
after_lem l [] e ys eq none_before = rw eq (ground arith)
after_lem l (x ∷ xs) e ys eq none_before =
    rw eq (ground (arith, after_lem (xs ++ e ∷ ys) xs e ys refl))

abbrev plain : Lists
plain = record {
  L = List ℕ;
  elements = λ l. l;
  list_first = head?;
  list_next = after;
  list_make_first = λ l e. e ∷ l;
  list_remove = erase;
  first_lem = λ l. refl;
  next_lem = after_lem;
  make_first_lem = λ l e. refl;
  remove_lem = λ l e. refl;
}

abbrev two : Futexes plain
two = record { active = []; free = 0 ∷ 1 ∷ []; mem = λ i. record { addr = 0; waiters = 0 } }

abbrev pool : ℕ → ℕ
pool i = if ltb i 2 then 1 else 0

pool-le-one : (i : ℕ) → pool i ≤ 1
pool-le-one i = ground arith

two-IsLinked : IsLinked plain pool pool-le-one two []
two-IsLinked = record {
  split = λ i. ground arith;
  counted = λ i h. absurd (omega arith);
  resting = λ i h. refl;
  distinct = λ i j h k e. absurd (omega arith);
}

abbrev idle : Waiting plain
idle = record { futexes = two; inside = [] }

abbrev one_waits : Waiting plain
one_waits = record { futexes = (wait_enter plain two 64).1; inside = 0 ∷ [] }

path : Reaches plain idle one_waits
unfolding wait_enter futexfind find_loop futexnew
path = Reaches.next Reaches.here (Step.enter 64 0 one_waits.futexes refl)

-- A wait alone comes back at once, with the lists as they were.
abbrev free_of : Option (Futexes plain) → List ℕ
free_of none = []
free_of (some fs) = fs.free

comes_back : free_of (host_futexwait plain two 64 0) ≡ 0 ∷ 1 ∷ []
unfolding host_futexwait wait_enter wait_leave futexfind find_loop futexnew futexfree
comes_back = refl
