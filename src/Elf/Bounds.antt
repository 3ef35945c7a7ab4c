-- ===== src/Elf/Bounds.antt =====
-- Where a segment that the loader accepts lies, and how far its bytes from the file reach.
use native.Mathlib.Nat.{div-add-mod'}
use libtux.Base.{
  ℕ, ◌+◌, ◌-◌, ◌*◌, ◌/◌, ◌%◌, ◌^◌, ◌≤◌, ◌<◌, ◌≡◌, refl, ◌∙◌, Bool, false, if◌then◌else◌, some,
  arith,
}
use libtux.Align.{word_mod, truncp, ceilp, truncp_lem, ceilp_lem}
use libtux.Align.Any.{
  truncp_bounds, ceilp_bounds, truncp_paged, ceilp_paged, truncp-zero, ceilp-zero, page_apart,
}
use libtux.Elf.{ProgHeader, Segment, segment, codemax}

-- The addresses of the segment do not wrap, and neither does rounding them.
pub record NoWrap (p : ProgHeader) : Type 0 where
  pub address : p.vaddr < word_mod
  pub reach : p.vaddr + p.memsz + p.align ≤ word_mod

-- By how much a segment is moved down.
abbrev pub moved : Bool → ℕ → ℕ
moved exec delta = if exec then delta else 0

-- The segment is a range of whole pages below CODEMAX that holds all of it, once it is moved; the
-- bytes from the file go where its address says.
pub record IsPlaced (pagesize moved : ℕ) (p : ProgHeader) (s : Segment) : Type 0 where
  pub first_page : (s.start + moved) % pagesize ≡ 0
  pub last_page : (s.stop + moved) % pagesize ≡ 0
  pub address : s.start + moved + s.offset ≡ p.vaddr
  pub page : s.start + pagesize ≤ s.stop
  pub below : s.stop < codemax
  pub reach : p.vaddr + p.memsz ≤ s.stop + moved
  pub file_in : s.start + s.offset + p.filesz ≤ s.stop

-- What is known of the rounded addresses.
record Rounded (pagesize : ℕ) (p : ProgHeader) (start stop : ℕ) : Type 0 where
  pub lo : start ≤ p.vaddr
  pub hi : p.vaddr + p.memsz ≤ stop
  pub small : stop < word_mod
  pub first_page : start % pagesize ≡ 0
  pub last_page : stop % pagesize ≡ 0
  pub apart : start < stop → start + pagesize ≤ stop

module _ (k m : ℕ) (split : 2 ^ k * 2 ^ m ≡ word_mod) (p : ProgHeader) (no_wrap : NoWrap p) where
  rounded :
      0 < p.align
      → p.align % 2 ^ k ≡ 0
      → Rounded (2 ^ k) p (truncp p.vaddr p.align) (ceilp ((p.vaddr + p.memsz) % word_mod) p.align)
  rounded h paged = rw wrapped (record {
    lo = (truncp_bounds p.align h (omega arith) p.vaddr (omega arith)).0;
    hi = up.0;
    small = omega (arith, up);
    first_page = down_page;
    last_page = up_page;
    apart = page_apart (2 ^ k) _ _ down_page up_page;
  })
    where
      open no_wrap use {reach}

      wrapped : (p.vaddr + p.memsz) % word_mod ≡ p.vaddr + p.memsz
      wrapped = omega arith

      up :
          (p.vaddr + p.memsz ≤ ceilp (p.vaddr + p.memsz) p.align)
          × (ceilp (p.vaddr + p.memsz) p.align < p.vaddr + p.memsz + p.align)
      up = ceilp_bounds p.align h (omega arith) (p.vaddr + p.memsz) reach

      whole : p.align / 2 ^ k * 2 ^ k ≡ p.align
      whole = omega (arith, div-add-mod' p.align (2 ^ k))

      down_page : truncp p.vaddr p.align % 2 ^ k ≡ 0
      down_page = truncp_paged p.align h (omega arith) k m _ split whole p.vaddr

      up_page : ceilp (p.vaddr + p.memsz) p.align % 2 ^ k ≡ 0
      up_page = ceilp_paged p.align h (omega arith) k m _ split whole (p.vaddr + p.memsz)

  -- For pages of a power of two, a segment whose addresses do not wrap and that passes the
  -- loader's checks gets a range below CODEMAX that, with the distance an executable is moved down
  -- by added again, begins and ends at a page and holds all of the segment in memory; the offset
  -- puts its bytes from the file at its address, and they end in the range.
  pub segment-IsPlaced :
      (exec : Bool) (delta : ℕ) (s : Segment)
      → segment (2 ^ k) exec delta p ≡ some s
      → IsPlaced (2 ^ k) (moved exec delta) p s
  unfolding segment
  segment-IsPlaced exec delta s e =
      ground (arith, rounded, truncp-zero p.vaddr, ceilp-zero ((p.vaddr + p.memsz) % word_mod))

-- Addresses that wrap pass the same checks: the range is one page, whatever number of bytes there are
-- in the file.
pub segment_overruns :
    (p : ProgHeader) (b delta : ℕ)
    → p.align ≡ 2 ^ 12
    → 0 < b
    → b < p.vaddr
    → p.vaddr < 2 ^ 12
    → p.memsz + b ≡ word_mod
    → p.filesz ≤ p.memsz
    → segment (2 ^ 12) false delta p ≡ some (record { start = 0; stop = 2 ^ 12; offset = p.vaddr })
unfolding segment
segment_overruns p b delta ea hb lt page wraps le = ground (arith, down, up)
  where
    sum : (p.vaddr + p.memsz) % word_mod ≡ p.vaddr - b
    sum = omega arith

    down : truncp p.vaddr p.align ≡ 0
    down = rw ea (truncp_lem 12 52 refl p.vaddr (omega arith) ∙ omega arith)

    up : ceilp ((p.vaddr + p.memsz) % word_mod) p.align ≡ 2 ^ 12
    up = rw (ea, sum) (ceilp_lem 12 52 refl (p.vaddr - b) (omega arith) ∙ omega arith)
