-- ===== src/Elf/Confined.antt =====
-- The loader writes to the range of the program and to nothing else of the host's memory, and the
-- range that it reports ends behind every segment.
use libtux.Base.{
  ℕ, zero, suc, Bool-cases, ◌+◌, ◌%◌, ◌≤◌, ◌<◌, ◌≡◌, refl, ap, inl, inr, Bool, arith, length,
  replicate, pos, ◌==◌,
}
use libtux.World.{AddrSpace, World}
use libtux.World.Memory.{bytes_at}
use libtux.World.Frame.{Kept-refl, Kept-copy_to, Keeps, Keeps-bind}
use libtux.Align.{word_mod}
use libtux.AddrSpace.{failed}
use libtux.AddrSpace.Placed.{MapsWhereAsked, AtOrFailed, as_mapat-Keeps, as_mprotect-Keeps}
use libtux.Elf.{word_sub}
use libtux.Elf.Buf.{Buf, bufget, bufread, read_count}
use libtux.Elf.Load.{sanitize, bufreadelfseg, mapanon, read_write}

length-bytes_at : (mem : ℕ → ℕ) (p n : ℕ) → length (bytes_at mem p n) ≡ n
length-bytes_at mem p zero = refl
length-bytes_at mem p (suc n) = ap suc (length-bytes_at mem (suc p) n)

length-replicate : {A : Type 0} (n : ℕ) (a : A) → length (replicate n a) ≡ n
length-replicate zero a = refl
length-replicate (suc n) a = ap suc (length-replicate n a)

-- The file's part of a segment does not wrap, and begins in the file.
abbrev pub InFile : Buf → ℕ → ℕ → Type 0
InFile buf offset count = (offset ≤ buf.size) × (offset + count < word_mod) × (buf.size < word_mod)

module _ (lo hi : ℕ) (top : hi < word_mod) where
  sanitize-Keeps :
      (safe : Bool) (p sz prot : ℕ) (w : World)
      → lo ≤ p
      → p + sz ≤ hi
      → Keeps lo hi (λ _. Unit) w (sanitize safe p sz prot w)
  unfolding sanitize
  sanitize-Keeps safe p sz prot w h k =
      let fits : p + length (replicate {A = ℕ} sz 0xcc) ≤ hi =
        rw (length-replicate {A = ℕ} sz 0xcc) k in
      ground (arith, Kept-refl lo hi w, Kept-copy_to lo hi w p (replicate {A = ℕ} sz 0xcc) h fits)

  read_count_bounds :
      (buf : Buf) (count offset : ℕ)
      → InFile buf offset count
      → (read_count buf count offset ≤ count) × (offset + read_count buf count offset ≤ buf.size)
  unfolding read_count
  read_count_bounds buf count offset (at, fits, small) = ground arith

  bufread-Keeps :
      (buf : Buf) (to count offset : ℕ) (w : World)
      → InFile buf offset count
      → lo ≤ to
      → to + count ≤ hi
      → Keeps lo hi (λ _. Unit) w (bufread buf to count offset w)
  unfolding bufread bufget
  bufread-Keeps buf to count offset w in_file h k =
      let n = read_count buf count offset in
      let bs = bytes_at w.mem (buf.ptr + offset) n in
      let (le, fits) = read_count_bounds buf count offset in_file in
      let room : to + length bs ≤ hi =
        rw (length-bytes_at w.mem (buf.ptr + offset) n) (omega arith) in
      ground (arith, fits, Kept-copy_to lo hi w to bs h room)

  -- One segment, in the range and with room for its bytes and a page.
  pub bufreadelfseg-Keeps :
      (safe : Bool) (space : AddrSpace) (start offset stop p_offset filesz prot : ℕ) (buf : Buf)
      (pagesize : ℕ) (w : World)
      → MapsWhereAsked w.oracle
      → lo ≤ start
      → stop ≤ hi
      → start + pagesize ≤ stop
      → start + offset + filesz ≤ stop
      → InFile buf p_offset filesz
      → Keeps lo hi
          (λ _. Unit)
          w
          (bufreadelfseg safe space start offset stop p_offset filesz prot buf pagesize w)
  unfolding bufreadelfseg
  bufreadelfseg-Keeps safe space start offset stop p_offset filesz prot buf pagesize w maps above
        below page room in_file =
      Keeps-bind lo hi (AtOrFailed start) (λ _. Unit) w _ _
        (as_mapat-Keeps lo hi space start (word_sub stop start) read_write mapanon (pos 0) w maps)
        λ p u at kept. elim (Bool-cases (p == failed)) [
          | inl e ↦ rw e (tt, Kept-refl lo hi u)
          | inr e ↦ rw e (
              Keeps-bind lo hi (λ _. Unit) (λ _. Unit) u _ _
                (sanitize-Keeps safe p pagesize prot u (ground arith) (ground arith))
                λ _ v1 _ _.
                  Keeps-bind lo hi (λ _. Unit) (λ _. Unit) v1 _ _
                    (sanitize-Keeps safe (word_sub stop pagesize) pagesize prot v1 (ground arith)
                      (ground arith))
                    λ _ v2 _ _.
                      Keeps-bind lo hi (λ _. Unit) (λ _. Unit) v2 _ _
                        (bufread-Keeps buf ((start + offset) % word_mod) filesz p_offset v2 in_file
                          (ground arith) (ground arith))
                        λ n v3 _ _. elim (Bool-cases (n == filesz)) [
                          | inl e ↦ rw e (
                              Keeps-bind lo hi (λ _. Unit) (λ _. Unit) v3 _ _
                                (as_mprotect-Keeps lo hi space start (word_sub stop start) prot v3)
                                λ r v4 _ _. (tt, Kept-refl lo hi v4))
                          | inr e ↦ rw e (tt, Kept-refl lo hi v3)
                        ])
        ]
