-- ===== src/Fd/Refs.antt =====
-- What it means that reference counts are right: each FDFile is counted as often as it is held, so
-- none is used after it is freed, and none is kept that nobody holds.
use libtux.Base.{
  ℕ, ◌+◌, ◌-◌, ◌≤◌, ◌<◌, ◌≡◌, ◌≢◌, ◌==◌, Option, none, some, one_if, count, length, if◌then◌else◌,
  arith, count-le-length, ◌∙◌,
}
use libtux.World.{Ptr, null, HostFile, FdFile, Proc, World, put}
use libtux.File.{all_ops}
use libtux.Fd.{nofile}

abbrev pub refs_of : Option FdFile → ℕ
refs_of none = 0
refs_of (some f) = f.refs

-- `holds p` is the number of references to the FDFile at `p`.
pub record IsCounted (holds : Ptr → ℕ) (fds : Ptr → Option FdFile) (hosts : Ptr → Option HostFile)
    (next : Ptr) : Type 0 where
  pub counted : (p : Ptr) → p ≢ null → refs_of (fds p) ≡ holds p
  pub backed : (p : Ptr) (f : FdFile) → fds p ≡ some f → hosts f.dev.file ≢ none
  pub owned :
      (p q : Ptr) (f g : FdFile) → fds p ≡ some f → fds q ≡ some g → p ≢ q → f.dev.file ≢ g.dev.file
  pub standard : (p : Ptr) (f : FdFile) → fds p ≡ some f → f.ops ≡ all_ops
  pub unused : (p : Ptr) → next ≤ p → (fds p ≡ none) × (hosts p ≡ none)
  pub not_null : (null < next) × (fds null ≡ none)

-- The counts of a state's FDFiles.
abbrev pub Counts : (Ptr → ℕ) → World → Type 0
Counts holds w = IsCounted holds w.fd_files w.host_files w.next

-- The references that the process has: its descriptors, libtux's own, and the working directory.
abbrev pub holders : Proc → Ptr → ℕ
holders pr p =
    count p pr.files
    + one_if (pr.tux.fstdin == p)
    + one_if (pr.tux.fstdout == p)
    + one_if (pr.tux.fstderr == p)
    + one_if (pr.cwd_fd == p)

-- Nothing is kept that nobody holds.
abbrev pub Keeps : World → Type 0
Keeps w = (p : Ptr) (f : FdFile) → w.fd_files p ≡ some f → 0 < f.refs

pub record IsSound (w : World) : Type 0 where
  pub size : length w.proc.files ≡ nofile
  pub refs : Counts (holders w.proc) w
  pub keeps : Keeps w

-- The process holds a file fewer times than a size_t can count.
pub holders_small : (pr : Proc) (p : Ptr) → length pr.files ≡ nofile → holders pr p < 200
holders_small pr p h = ground (arith, count-le-length p pr.files)

-- One more reference to `q`, or one fewer.
abbrev pub more : (Ptr → ℕ) → Ptr → Ptr → ℕ
more holds q p = if q == p then holds p + 1 else holds p

abbrev pub fewer : (Ptr → ℕ) → Ptr → Ptr → ℕ
fewer holds q p = if q == p then holds p - 1 else holds p

module _ {fds : Ptr → Option FdFile} {hosts : Ptr → Option HostFile} {next : Ptr} where
  -- Counting depends on the number of references at each address only.
  pub IsCounted-eq :
      {h k : Ptr → ℕ}
      → ((p : Ptr) → p ≢ null → h p ≡ k p)
      → IsCounted h fds hosts next
      → IsCounted k fds hosts next
  IsCounted-eq {h} {k} e c = record {
    counted = λ p n. c.counted p n ∙ e p n;
    backed = c.backed;
    owned = c.owned;
    standard = c.standard;
    unused = c.unused;
    not_null = c.not_null;
  }

  module _ {h : Ptr → ℕ} (c : IsCounted h fds hosts next) (ff : Ptr) (f : FdFile) where
    -- A count that changes with the number of references.
    pub IsCounted-put :
        (k : Ptr → ℕ) (n : ℕ)
        → fds ff ≡ some f
        → k ff ≡ n
        → ((p : Ptr) → p ≢ null → p ≢ ff → k p ≡ h p)
        → IsCounted k (put fds ff (some (record f { refs = n }))) hosts next
    IsCounted-put k n e at else_same = record {
      counted = λ p nz. ground (arith, c.counted p nz, else_same p nz);
      backed = λ p g eg. ground (arith, c.backed p g, c.backed ff f);
      owned = λ p q g g' e1 e2 ne.
          ground (arith, c.owned p q g g', c.owned ff q f g', c.owned p ff g f);
      standard = λ p g eg. ground (arith, c.standard p g, c.standard ff f);
      unused = λ p le. ground (arith, c.unused p);
      not_null = ground (arith, c.not_null);
    }

    -- An FDFile that nobody holds any more is freed.
    pub IsCounted-free :
        (k : Ptr → ℕ)
        → fds ff ≡ some f
        → k ff ≡ 0
        → ((p : Ptr) → p ≢ null → p ≢ ff → k p ≡ h p)
        → IsCounted k (put fds ff none) hosts next
    IsCounted-free k e at else_same = record {
      counted = λ p nz. ground (arith, c.counted p nz, else_same p nz);
      backed = λ p g eg. ground (arith, c.backed p g);
      owned = λ p q g g' e1 e2 ne. ground (arith, c.owned p q g g');
      standard = λ p g eg. ground (arith, c.standard p g, c.standard ff f);
      unused = λ p le. ground (arith, c.unused p);
      not_null = ground (arith, c.not_null);
    }

    -- So may its HostFile be, since no other FDFile has it.
    pub IsCounted-close :
        (k : Ptr → ℕ)
        → fds ff ≡ some f
        → k ff ≡ 0
        → ((p : Ptr) → p ≢ null → p ≢ ff → k p ≡ h p)
        → IsCounted k (put fds ff none) (put hosts f.dev.file none) next
    IsCounted-close k e at else_same = record {
      counted = λ p nz. ground (arith, c.counted p nz, else_same p nz);
      backed = λ p g eg. ground (arith, c.backed p g, c.owned ff p f g);
      owned = λ p q g g' e1 e2 ne. ground (arith, c.owned p q g g');
      standard = λ p g eg. ground (arith, c.standard p g, c.standard ff f);
      unused = λ p le. ground (arith, c.unused p);
      not_null = ground (arith, c.not_null);
    }
