-- ===== src/AddrSpace/Placed.antt =====
-- Where lfi_as_mapat maps, and what it leaves alone, when libmmap maps where it is asked to.
use libtux.Base.{ℕ, ◌≡◌, refl, subst, sym, ◌⊎◌, inl, false, List, ℤ, is_neg, pos_part, arith}
use libtux.World.{null, Call, Answer, AddrSpace, World, Run, ok, aborted, fault, Cmd, and_then}
use libtux.World.Frame.{
  Kept-refl, Kept-same, Keeps, Keeps-bind, Keeps-assert, Keeps-if, Keeps-after,
}
use libtux.Host.{host_fd}
use libtux.Host.Memory.{host_mmap, host_mprotect}
use libtux.AddrSpace.{asmap, failed, map_or_undo, cbunmap, as_mapat, as_mprotect, inside}
use libtux.AddrSpace.Frame.{SameProc, cbunmap-SameProc}

-- mm_mapat of libmmap either fails or maps at the address that it is given.
abbrev pub MapsWhereAsked : (List Call → Call → Answer) → Type 0
MapsWhereAsked o =
    (log : List Call) (addr size prot flags : ℕ)
    → is_neg (o log (Call.mm_mapat addr size prot flags)).ret ≡ false
    → pos_part (o log (Call.mm_mapat addr size prot flags)).ret ≡ addr

-- The address, or -1.
abbrev pub AtOrFailed : ℕ → ℕ → Type 0
AtOrFailed addr a = (a ≡ failed) ⊎ (a ≡ addr)

module _ (lo hi : ℕ) where
  SameProc-Keeps : {A : Type 0} (w : World) (r : Run A) → SameProc w r → Keeps lo hi (λ _. Unit) w r
  SameProc-Keeps w (ok a v) (e1, e2, e3, e4, e5, up) = (tt, Kept-same lo hi w v e1 e2 e4 e3 e5 up)
  SameProc-Keeps w aborted h = tt
  SameProc-Keeps w fault h = elim h [ ]

  map_or_undo-Keeps :
      (addr len prot flags : ℕ) (off : ℤ) (w : World)
      → Keeps lo hi (AtOrFailed addr) w (map_or_undo addr len prot flags null off w)
  unfolding map_or_undo asmap host_mmap host_fd
  map_or_undo-Keeps addr len prot flags off w = ground arith

  pub as_mapat-Keeps :
      (s : AddrSpace) (addr size prot flags : ℕ) (off : ℤ) (w : World)
      → MapsWhereAsked w.oracle
      → Keeps lo hi (AtOrFailed addr) w (as_mapat s addr size prot flags null off w)
  unfolding as_mapat
  as_mapat-Keeps s addr size prot flags off w maps =
      Keeps-assert lo hi (AtOrFailed addr) (inside s addr size) _ w (
        Keeps-bind lo hi (λ _. Unit) (AtOrFailed addr) w (cbunmap _ _) _
          (SameProc-Keeps w _ (cbunmap-SameProc _ _))
          λ _ v t kept.
            Keeps-if lo hi (AtOrFailed addr) (is_neg a.ret) _ _ v
              (λ e. (inl refl, Kept-refl lo hi v))
              (λ e.
                subst
                  (λ at.
                    Keeps lo hi (AtOrFailed addr) v (map_or_undo at size prot flags null off v))
                  (sym (maps w.log addr size prot flags e))
                  (map_or_undo-Keeps addr size prot flags off v)))
    where
      a : Answer
      a = w.oracle w.log (Call.mm_mapat addr size prot flags)

  pub as_mprotect-Keeps :
      (s : AddrSpace) (addr size prot : ℕ) (w : World)
      → Keeps lo hi (λ _. Unit) w (as_mprotect s addr size prot w)
  unfolding as_mprotect host_mprotect
  as_mprotect-Keeps s addr size prot w =
      Keeps-assert lo hi _ (inside s addr size) _ w
        (tt, Kept-same lo hi w _ refl refl refl refl refl (omega arith))

  -- A command that leaves the memory alone, and then another.
  pub Keeps-same :
      {A B : Type 0} (Q : B → Type 0) (w : World) (r : Run A) (k : A → Cmd B)
      → SameProc w r
      → ((a : A) (v : World) → v.mem ≡ w.mem → v.oracle ≡ w.oracle → Keeps lo hi Q v (k a v))
      → Keeps lo hi Q w (and_then r k)
  Keeps-same {A = A} Q w (ok a v) k (e1, e2, e3, e4, e5, up) next =
      Keeps-after lo hi (λ (b : A). Unit) Q w v (k a v) (Kept-same lo hi w v e1 e2 e4 e3 e5 up)
        (next a v e3 e4)
  Keeps-same Q w aborted k h next = tt
  Keeps-same Q w fault k h next = elim h [ ]
