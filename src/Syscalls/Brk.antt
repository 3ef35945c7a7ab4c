-- ===== src/Syscalls/Brk.antt =====
-- What sys_brk guarantees: the break stays in its region, and what it grows by is mapped.
use libtux.Base.{ℕ, ◌+◌, ◌-◌, ◌≤◌, ◌<◌, ◌%◌, ◌≡◌, ◌==◌, ◌⊎◌, arith, pos, if◌then◌else◌, ◌^◌, ◌*◌}
use libtux.World.{null, Proc, World, Run, ok, aborted, fault}
use native.Mathlib.Nat.{one-le-pow}
use libtux.Align.{word_mod, align_bounds}
use libtux.AddrSpace.{as_mapat, as_validptr, failed}
use libtux.AddrSpace.Access.{procaddr}
use libtux.AddrSpace.Frame.{as_mapat-SameProc}
use libtux.Syscalls.Mem.{brkmaxsize, brk_target, brk_growth, brk_prot, brk_flags, sys_brk}

-- The region of the break does not wrap, and the break is in it.
pub record HasBrk (p : Proc) : Type 0 where
  pub region : p.brkbase + brkmaxsize < word_mod
  pub within : p.brksize < brkmaxsize

brk_target_bounds :
    (w : World) (addr : ℕ)
    → HasBrk w.proc
    → (w.proc.brkbase ≤ brk_target w addr) × (brk_target w addr ≤ w.proc.brkbase + brkmaxsize)
unfolding brk_target procaddr as_validptr
brk_target_bounds w addr h = ground arith

-- A request at the end of the region or beyond it, which the code moves to the end, fails the
-- assertion that follows: the host aborts.
pub sys_brk_aborts :
    (w : World) (addr : ℕ)
    → HasBrk w.proc
    → w.proc.brkbase + brkmaxsize ≤ addr
    → sys_brk addr w ≡ aborted
unfolding sys_brk brk_target procaddr as_validptr
sys_brk_aborts w addr h le = ground arith

-- The break is asked for, or is what it was: nothing changes, and no call is made.
pub sys_brk_query :
    (w : World) (addr : ℕ)
    → HasBrk w.proc
    → (addr ≡ 0) ⊎ (addr ≡ w.proc.brkbase + w.proc.brksize)
    → sys_brk addr w ≡ ok (w.proc.brkbase + w.proc.brksize) w
unfolding sys_brk brk_target procaddr as_validptr
sys_brk_query w addr h e = ground arith

abbrev pub with_brksize : World → ℕ → World
with_brksize w n = record w { proc = record w.proc { brksize = n } }

-- A smaller break is set, without a call: what it gives up stays mapped.
pub sys_brk_shrinks :
    (w : World) (n : ℕ)
    → HasBrk w.proc
    → 0 < w.proc.brkbase
    → n < w.proc.brksize
    → sys_brk (w.proc.brkbase + n) w ≡ ok (w.proc.brkbase + n) (with_brksize w n)
unfolding sys_brk brk_target procaddr as_validptr
sys_brk_shrinks w n h nz lt = ground arith

-- The range that is mapped for a larger break: it begins at the first page that is not yet mapped
-- and reaches the new break.
brk_growth_covers :
    (w : World) (k m n : ℕ)
    → 2 ^ k * 2 ^ m ≡ word_mod
    → w.proc.tux.opts.pagesize ≡ 2 ^ k
    → HasBrk w.proc
    → w.proc.brkbase + brkmaxsize + 2 ^ k ≤ word_mod
    → w.proc.brksize < n
    → n < brkmaxsize
    → let (start, size) = brk_growth w.proc n in
      (w.proc.brkbase + w.proc.brksize ≤ start)
      × (start < w.proc.brkbase + w.proc.brksize + 2 ^ k)
      × (w.proc.brkbase + n ≤ start + size)
unfolding brk_growth
brk_growth_covers w k m n split page h room more small =
    let top = w.proc.brkbase + w.proc.brksize in
    let bounds = align_bounds k m split top (omega (arith, h.within)) in
    rw page (ground (arith, bounds, one-le-pow k 2 (omega arith)))

-- A larger break is set exactly if its range could be mapped.
sys_brk_grows :
    (w v : World) (n addr : ℕ)
    → HasBrk w.proc
    → 0 < w.proc.brkbase
    → w.proc.brksize < n
    → n < brkmaxsize
    → let (start, size) = brk_growth w.proc n in
      as_mapat w.proc.p_as start size brk_prot brk_flags null (pos 0) w ≡ ok addr v
      → sys_brk (w.proc.brkbase + n) w
        ≡ (if addr == failed then ok failed v else ok (w.proc.brkbase + n) (with_brksize v n))
unfolding sys_brk brk_target procaddr as_validptr
sys_brk_grows w v n addr h nz more small e = ground arith

-- What a run of sys_brk may answer, and the break that it leaves. It never faults.
abbrev pub BrkResult : Proc → Run ℕ → Type 0
BrkResult p (ok r v) =
    HasBrk v.proc
    × (v.proc.brkbase ≡ p.brkbase)
    × (((r ≡ failed) × (v.proc.brksize ≡ p.brksize)) ⊎ (r ≡ v.proc.brkbase + v.proc.brksize))
BrkResult p aborted = Unit
BrkResult p fault = ⊥

-- Whatever is asked, sys_brk either fails an assertion or returns, with the break in its region, and
-- the answer is the new break, or -1 with the break as it was. It uses no bad pointer.
pub sys_brk-HasBrk : (w : World) (addr : ℕ) → HasBrk w.proc → BrkResult w.proc (sys_brk addr w)
unfolding sys_brk
sys_brk-HasBrk w addr h =
    let n = (brk_target w addr + word_mod - w.proc.brkbase) % word_mod in
    let (start, size) = brk_growth w.proc n in
    ground (
      arith,
      brk_target_bounds w addr h,
      as_mapat-SameProc w.proc.p_as start size brk_prot brk_flags (pos 0) w,
    )
