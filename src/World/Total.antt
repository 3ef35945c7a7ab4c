-- ===== src/World/Total.antt =====
-- Runs that return, and what they return: a logic of total correctness for commands.
use libtux.Base.{◌≡◌, refl}
use libtux.World.{World, Run, ok, aborted, fault, Cmd, and_then}

-- The run returns a value and a state that `P` holds of: it neither aborts nor faults.
abbrev pub Holds : {A : Type 0} → (A → World → Type 0) → Run A → Type 0
Holds P (ok a v) = P a v
Holds P aborted = ⊥
Holds P fault = ⊥

module _ {A : Type 0} where
  -- What holds of a run holds of one that is equal to it.
  pub Holds-weaken :
      (P Q : A → World → Type 0) (r : Run A)
      → Holds P r
      → ((a : A) (v : World) → P a v → Q a v)
      → Holds Q r
  Holds-weaken P Q (ok a v) h step = step a v h
  Holds-weaken P Q aborted h step = elim h [ ]
  Holds-weaken P Q fault h step = elim h [ ]

  -- What the run returns.
  pub Holds-ran :
      (P : A → World → Type 0) (r : Run A)
      → Holds P r
      → (a : A) × (v : World) × (r ≡ ok a v) × P a v
  Holds-ran P (ok a v) h = (a, v, refl, h)
  Holds-ran P aborted h = elim h [ ]
  Holds-ran P fault h = elim h [ ]

  module _ {B : Type 0} where
    -- One command after another.
    pub Holds-bind :
        (P : A → World → Type 0) (Q : B → World → Type 0) (r : Run A) (k : A → Cmd B)
        → Holds P r
        → ((a : A) (v : World) → P a v → Holds Q (k a v))
        → Holds Q (and_then r k)
    Holds-bind P Q (ok a v) k h step = step a v h
    Holds-bind P Q aborted k h step = elim h [ ]
    Holds-bind P Q fault k h step = elim h [ ]

-- The run does not fault; if it returns, `P` holds of the value and the state.
abbrev pub Unless : {A : Type 0} → (A → World → Type 0) → Run A → Type 0
Unless P (ok a v) = P a v
Unless P aborted = Unit
Unless P fault = ⊥

module _ {A : Type 0} (P : A → World → Type 0) where
  pub Unless-weaken :
      (Q : A → World → Type 0) (r : Run A)
      → Unless P r
      → ((a : A) (v : World) → P a v → Q a v)
      → Unless Q r
  Unless-weaken Q (ok a v) h step = step a v h
  Unless-weaken Q aborted h step = tt
  Unless-weaken Q fault h step = elim h [ ]

  -- A run that returns does not fault.
  pub Holds-Unless : (r : Run A) → Holds P r → Unless P r
  Holds-Unless (ok a v) h = h
  Holds-Unless aborted h = tt
  Holds-Unless fault h = elim h [ ]

  pub Unless-bind :
      {B : Type 0} (Q : B → World → Type 0) (r : Run A) (k : A → Cmd B)
      → Unless P r
      → ((a : A) (v : World) → P a v → Unless Q (k a v))
      → Unless Q (and_then r k)
  Unless-bind Q (ok a v) k h step = step a v h
  Unless-bind Q aborted k h step = tt
  Unless-bind Q fault k h step = elim h [ ]
