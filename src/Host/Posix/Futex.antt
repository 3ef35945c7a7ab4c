-- ===== src/Host/Posix/Futex.antt =====
-- src/host/posix/futex.c: futexes of the process's own, on two lists, over src/list.h and src/futex.h.
-- A futex is its index in `mem`. The functions of src/list.h have no definition in the repository.
pub mod Find
pub mod Linked
pub mod Waits
use libtux.Base.{
  ℕ, zero, suc, ◌+◌, ◌-◌, ◌==◌, ◌≡◌, Bool, not, List, [], ◌∷◌, ◌++◌, Option, none, some,
  if◌then◌else◌, length, count,
}

pub record Futex : Type 0 where
  pub addr : ℕ
  pub waiters : ℕ

abbrev pub head? : List ℕ → Option ℕ
head? [] = none
head? (x ∷ xs) = some x

-- The list without the first `e`.
abbrev pub erase : List ℕ → ℕ → List ℕ
erase [] e = []
erase (x ∷ xs) e = if x == e then xs else x ∷ erase xs e

-- The operations of src/list.h, for a list that is seen as the elements that a walk over it meets.
pub record Lists : Type 1 where
  pub L : Type 0
  pub elements : L → List ℕ
  pub list_first : L → Option ℕ
  pub list_next : L → ℕ → Option ℕ
  pub list_make_first : L → ℕ → L
  pub list_remove : L → ℕ → L
  pub first_lem : (l : L) → list_first l ≡ head? (elements l)
  pub next_lem :
      (l : L) (xs : List ℕ) (e : ℕ) (ys : List ℕ)
      → elements l ≡ xs ++ e ∷ ys
      → count e xs ≡ 0
      → list_next l e ≡ head? ys
  pub make_first_lem : (l : L) (e : ℕ) → elements (list_make_first l e) ≡ e ∷ elements l
  pub remove_lem : (l : L) (e : ℕ) → elements (list_remove l e) ≡ erase (elements l) e

-- The futex at an index gets another value.
abbrev pub update : (ℕ → Futex) → ℕ → Futex → ℕ → Futex
update mem i f j = if i == j then f else mem j

module _ (lists : Lists) where
  open lists use {L, elements, list_first, list_next, list_make_first, list_remove}

  -- `struct Futexes`, less its mutex
  pub record Futexes : Type 0 where
    pub active : L
    pub free : L
    pub mem : ℕ → Futex

  -- The loop of futexfind, for as many rounds as there are elements.
  unfoldable pub find_loop : ℕ → Futexes → ℕ → Option ℕ → Option ℕ
  find_loop zero fs addr e = none
  find_loop (suc n) fs addr none = none
  find_loop (suc n) fs addr (some e) =
      let rest = find_loop n fs addr (list_next fs.active e) in
      if (fs.mem e).addr == addr then some e else rest

  unfoldable pub futexfind : Futexes → ℕ → Option ℕ
  futexfind fs addr = find_loop (length (elements fs.active)) fs addr (list_first fs.active)

  unfoldable pub futexnew : Futexes → ℕ → Option ℕ × Futexes
  futexnew fs addr = elim (list_first fs.free) [
    | none ↦ (none, fs)
    | some e ↦ (
      some e,
      record fs {
        free = list_remove fs.free e;
        mem = update fs.mem e (record { addr = addr; waiters = 1 });
      },
    )
  ]

  unfoldable pub futexfree : Futexes → ℕ → Futexes
  futexfree fs f = record fs { free = list_make_first fs.free f }

  -- The number of waiters of a futex changes.
  abbrev pub with_waiters : Futexes → ℕ → ℕ → Futexes
  with_waiters fs f n = record fs { mem = update fs.mem f (record (fs.mem f) { waiters = n }) }

  -- What host_futexwait does under the first lock: the futex that the thread counts itself in.
  unfoldable pub wait_enter : Futexes → ℕ → Option ℕ × Futexes
  wait_enter fs uaddr = elim (futexfind fs uaddr) [
    | some f ↦ (some f, with_waiters fs f ((fs.mem f).waiters + 1))
    | none ↦
        let (new, fs') = futexnew fs uaddr in
        elim new [
          | none ↦ (none, fs')
          | some f ↦ (some f, record fs' { active = list_make_first fs'.active f })
        ]
  ]

  -- What it does under the second lock, for a futex with a waiter. Between the two it waits for
  -- nothing.
  unfoldable pub wait_leave : Futexes → ℕ → Futexes
  unfolding futexfree
  wait_leave fs f =
      let fs' = with_waiters fs f ((fs.mem f).waiters - 1) in
      if (fs.mem f).waiters == 1
      then futexfree (record fs' { active = list_remove fs'.active f }) f
      else fs'

  -- host_futexwait: `none` for the failed assertion on a timeout, else -1 whatever happened.
  unfoldable pub host_futexwait : Futexes → ℕ → ℕ → Option Futexes
  host_futexwait fs uaddr timeoutp =
      if not (timeoutp == 0)
      then none
      else let (got, fs') = wait_enter fs uaddr in
        some (elim got [ none ↦ fs' | some f ↦ wait_leave fs' f ])

  -- host_futexwake fails its assertion.
  abbrev pub host_futexwake : Futexes → Option Futexes
  host_futexwake fs = none
