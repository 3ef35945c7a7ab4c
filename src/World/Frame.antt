-- ===== src/World/Frame.antt =====
-- Runs that write to a range of the host's memory and to nothing else of the process.
use libtux.Base.{
  ℕ, ◌+◌, ◌≤◌, ◌<◌, ◌≡◌, refl, ap, ◌∙◌, Bool, true, false, List, ◌⊎◌, arith, length, if◌then◌else◌,
}
use libtux.World.{Ptr, World, Run, ok, aborted, fault, Cmd, and_then, assert, ◌>>◌}
use libtux.World.Memory.{copy_to}

module _ (lo hi : ℕ) where
  -- From `w` to `v` the memory outside of the range, the process, the files and the outside stay.
  pub record Kept (w v : World) : Type 0 where
    pub proc : v.proc ≡ w.proc
    pub fd_files : v.fd_files ≡ w.fd_files
    pub oracle : v.oracle ≡ w.oracle
    pub host_files : v.host_files ≡ w.host_files
    pub next : w.next ≤ v.next
    pub outside : (a : ℕ) → (a < lo) ⊎ (hi ≤ a) → v.mem a ≡ w.mem a

  -- The run does not fault; if it returns, `P` holds of the result and the rest was kept.
  abbrev pub Keeps : {A : Type 0} → (A → Type 0) → World → Run A → Type 0
  Keeps P w (ok a v) = P a × Kept w v
  Keeps P w aborted = Unit
  Keeps P w fault = ⊥

  pub Kept-refl : (w : World) → Kept w w
  Kept-refl w = record {
    proc = refl;
    fd_files = refl;
    oracle = refl;
    host_files = refl;
    next = omega arith;
    outside = λ a h. refl;
  }

  pub Kept-trans : (u v w : World) → Kept u v → Kept v w → Kept u w
  Kept-trans u v w p q = record {
    proc = q.proc ∙ p.proc;
    fd_files = q.fd_files ∙ p.fd_files;
    oracle = q.oracle ∙ p.oracle;
    host_files = q.host_files ∙ p.host_files;
    next = omega (arith, p.next, q.next);
    outside = λ a h. q.outside a h ∙ p.outside a h;
  }

  -- Nothing but the calls made, or what only they need, has changed.
  pub Kept-same :
      (w v : World)
      → v.proc ≡ w.proc
      → v.fd_files ≡ w.fd_files
      → v.oracle ≡ w.oracle
      → v.mem ≡ w.mem
      → v.host_files ≡ w.host_files
      → w.next ≤ v.next
      → Kept w v
  Kept-same w v ep ef eo em eh up = record {
    proc = ep;
    fd_files = ef;
    oracle = eo;
    host_files = eh;
    next = up;
    outside = λ a h. ap (λ m. m a) em;
  }

  module _ {A B : Type 0} (P : A → Type 0) (Q : B → Type 0) where
    pub Keeps-after : (u v : World) (r : Run B) → Kept u v → Keeps Q v r → Keeps Q u r
    Keeps-after u v (ok b w) k h = (h.0, Kept-trans u v w k h.1)
    Keeps-after u v aborted k h = tt
    Keeps-after u v fault k h = elim h [ ]

    -- One command after another.
    pub Keeps-bind :
        (w : World) (r : Run A) (k : A → Cmd B)
        → Keeps P w r
        → ((a : A) (v : World) → P a → Kept w v → Keeps Q v (k a v))
        → Keeps Q w (and_then r k)
    Keeps-bind w (ok a v) k h next = Keeps-after w v (k a v) h.1 (next a v h.0 h.1)
    Keeps-bind w aborted k h next = tt
    Keeps-bind w fault k h next = elim h [ ]

  -- After an assertion that passes, the run goes on from the same state.
  pub Keeps-assert :
      {B : Type 0} (Q : B → Type 0) (b : Bool) (m : Cmd B) (w : World)
      → Keeps Q w (m w)
      → Keeps Q w ((assert b >> m) w)
  Keeps-assert Q true m w h = h
  Keeps-assert Q false m w h = tt

  pub Keeps-if :
      {B : Type 0} (Q : B → Type 0) (b : Bool) (x y : Cmd B) (w : World)
      → (b ≡ true → Keeps Q w (x w))
      → (b ≡ false → Keeps Q w (y w))
      → Keeps Q w ((if b then x else y) w)
  Keeps-if Q true x y w h k = h refl
  Keeps-if Q false x y w h k = k refl

  -- A copy into the range.
  pub Kept-copy_to :
      (w : World) (p : Ptr) (bs : List ℕ)
      → lo ≤ p
      → p + length bs ≤ hi
      → Kept w (record w { mem = copy_to w.mem p bs })
  Kept-copy_to w p bs h k = record {
    proc = refl;
    fd_files = refl;
    oracle = refl;
    host_files = refl;
    next = omega arith;
    outside = λ a out. ground arith;
  }

  -- What follows from the result holds as well.
  pub Keeps-weaken :
      {A : Type 0} (P Q : A → Type 0) (w : World) (r : Run A)
      → Keeps P w r
      → ((a : A) → P a → Q a)
      → Keeps Q w r
  Keeps-weaken P Q w (ok a v) h f = (f a h.0, h.1)
  Keeps-weaken P Q w aborted h f = tt
  Keeps-weaken P Q w fault h f = elim h [ ]
