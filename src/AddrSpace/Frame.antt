-- ===== src/AddrSpace/Frame.antt =====
-- Anonymous mapping calls the host and libmmap, and changes nothing of the process.
use libtux.Base.{
  ℕ, ◌≤◌, ◌∙◌, ◌≡◌, refl, Bool, true, false, List, [], ◌∷◌, ℤ, arith, is_neg, pos_part,
  if◌then◌else◌,
}
use libtux.World.{
  null, Call, AddrSpace, World, ok, aborted, fault, Run, Cmd, and_then, assert, pure,
}
use libtux.Host.{host_fd}
use libtux.Host.Memory.{host_mmap}
use libtux.AddrSpace.{asmap, failed, map_or_undo, cbunmap, as_mapat, inside}

-- Nothing of the process, the files, the memory and the outside has changed, but that addresses may
-- have been given out.
abbrev pub Same : World → World → Type 0
Same w v =
    (v.proc ≡ w.proc)
    × (v.fd_files ≡ w.fd_files)
    × (v.mem ≡ w.mem)
    × (v.oracle ≡ w.oracle)
    × (v.host_files ≡ w.host_files)
    × (w.next ≤ v.next)

pub Same-trans : (u v w : World) → Same u v → Same v w → Same u w
Same-trans u v w (d1, d2, d3, d4, d5, m) (e1, e2, e3, e4, e5, n) =
    (e1 ∙ d1, e2 ∙ d2, e3 ∙ d3, e4 ∙ d4, e5 ∙ d5, omega arith)

-- The run does not fault, and leaves that alone.
abbrev pub SameProc : {A : Type 0} → World → Run A → Type 0
SameProc w (ok a v) = Same w v
SameProc w aborted = Unit
SameProc w fault = ⊥

SameProc-after : {A : Type 0} (u v : World) (r : Run A) → Same u v → SameProc v r → SameProc u r
SameProc-after u v (ok a w) same h = Same-trans u v w same h
SameProc-after u v aborted same h = tt
SameProc-after u v fault same h = h

module _ {A B : Type 0} where
  -- One run after another.
  pub SameProc-bind :
      (w : World) (r : Run A) (k : A → Cmd B)
      → SameProc w r
      → ((a : A) (v : World) → SameProc v (k a v))
      → SameProc w (and_then r k)
  SameProc-bind w (ok a v) k same next = SameProc-after w v (k a v) same (next a v)
  SameProc-bind w aborted k h next = tt
  SameProc-bind w fault k h next = elim h [ ]

host_mmap-SameProc :
    (addr len prot flags : ℕ) (off : ℤ) (w : World)
    → SameProc w (host_mmap addr len prot flags null off w)
unfolding host_mmap host_fd
host_mmap-SameProc addr len prot flags off w = ground arith

pub map_or_undo-SameProc :
    (addr len prot flags : ℕ) (off : ℤ) (w : World)
    → SameProc w (map_or_undo addr len prot flags null off w)
unfolding map_or_undo asmap host_mmap host_fd
map_or_undo-SameProc addr len prot flags off w = ground arith

pub cbunmap-SameProc : (rs : List (ℕ × ℕ)) (w : World) → SameProc w (cbunmap rs w)
unfolding cbunmap host_mmap
cbunmap-SameProc [] w = (refl, refl, refl, refl, refl, omega arith)
cbunmap-SameProc ((start, len) ∷ rs) w =
    SameProc-bind w _ _ (ground arith) (λ _ v. cbunmap-SameProc rs v)

if-SameProc :
    {A : Type 0} (w : World) (b : Bool) (x y : Cmd A)
    → SameProc w (x w)
    → SameProc w (y w)
    → SameProc w ((if b then x else y) w)
if-SameProc w true x y h k = h
if-SameProc w false x y h k = k

assert-SameProc : (w : World) (b : Bool) → SameProc w (assert b w)
assert-SameProc w true = (refl, refl, refl, refl, refl, omega arith)
assert-SameProc w false = tt

pub as_mapat-SameProc :
    (s : AddrSpace) (addr size prot flags : ℕ) (off : ℤ) (w : World)
    → SameProc w (as_mapat s addr size prot flags null off w)
unfolding as_mapat
as_mapat-SameProc s addr size prot flags off w =
    SameProc-bind w _ _ (assert-SameProc w (inside s addr size)) λ _ u.
      SameProc-bind u _ _ (cbunmap-SameProc _ _) λ _ v.
        let a = u.oracle u.log (Call.mm_mapat addr size prot flags) in
        if-SameProc v (is_neg a.ret) (pure failed)
          (map_or_undo (pos_part a.ret) size prot flags null off)
          (refl, refl, refl, refl, refl, omega arith)
          (map_or_undo-SameProc (pos_part a.ret) size prot flags off v)
