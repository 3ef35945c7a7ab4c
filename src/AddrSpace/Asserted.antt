-- ===== src/AddrSpace/Asserted.antt =====
-- The assertion of lfi_as_mapat: a mapping that returns had its range in the space.
use libtux.Base.{ℕ, ◌≡◌, true, false, Bool-cases, inl, inr, ℤ, arith}
use libtux.World.{null, AddrSpace, World, Run, ok, aborted, fault}
use libtux.World.Total.{Unless}
use libtux.AddrSpace.{as_mapat, inside}
use libtux.AddrSpace.Frame.{Same, SameProc, as_mapat-SameProc}

module _ (s : AddrSpace) (addr size : ℕ) (w : World) where
  -- The range passed the assertion, and nothing of the process has changed.
  abbrev pub MappedIn : ℕ → World → Type 0
  MappedIn a v = (inside s addr size ≡ true) × Same w v

  SameProc-MappedIn : (r : Run ℕ) → inside s addr size ≡ true → SameProc w r → Unless MappedIn r
  SameProc-MappedIn (ok a v) e same = (e, same)
  SameProc-MappedIn aborted e h = tt
  SameProc-MappedIn fault e h = h

  module _ (prot flags : ℕ) (off : ℤ) where
    outside_aborts :
        inside s addr size ≡ false → as_mapat s addr size prot flags null off w ≡ aborted
    unfolding as_mapat
    outside_aborts e = ground (arith, e)

    pub as_mapat-MappedIn : Unless MappedIn (as_mapat s addr size prot flags null off w)
    as_mapat-MappedIn = elim (Bool-cases (inside s addr size)) [
      | inl e ↦ SameProc-MappedIn _ e (as_mapat-SameProc s addr size prot flags off w)
      | inr e ↦ rw (outside_aborts e) tt
    ]
