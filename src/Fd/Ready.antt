-- ===== src/Fd/Ready.antt =====
-- New files: an FDFile that no descriptor has yet, and the addresses that malloc gives.
use libtux.Base.{
  ℕ, ◌+◌, ◌<◌, ◌≡◌, ◌≢◌, ◌⊎◌, inl, inr, refl, Option, none, some, length, arith, pos, int_eq,
  Bool-cases,
}
use libtux.World.{Ptr, null, Call, HostFile, FdFile, World, put}
use libtux.World.Total.{Holds}
use libtux.Host.{malloc}
use libtux.File.{all_ops}
use libtux.Fd.{nofile}
use libtux.Fd.Refs.{IsSound, IsCounted, Counts, holders}

-- A file that is open and that no descriptor has yet.
pub record IsReady (w : World) (ff : Ptr) (f : FdFile) : Type 0 where
  pub size : length w.proc.files ≡ nofile
  pub refs : Counts (holders w.proc) w
  pub keeps : (p : Ptr) (g : FdFile) → p ≢ ff → w.fd_files p ≡ some g → 0 < g.refs
  pub not_null : ff ≢ null
  pub file : w.fd_files ff ≡ some f
  pub unheld : f.refs ≡ 0

-- NULL, or a HostFile that is there.
abbrev pub IsLive : World → Ptr → Type 0
IsLive w p = (p ≡ null) ⊎ (w.host_files p ≢ none)

-- No FDFile has the HostFile at `hf`.
abbrev pub Unowned : (Ptr → Option FdFile) → Ptr → Type 0
Unowned fds hf = (p : Ptr) (g : FdFile) → fds p ≡ some g → g.dev.file ≢ hf

-- An address that malloc gave and that nothing uses yet.
pub record IsFresh (w : World) (p : Ptr) : Type 0 where
  pub not_null : p ≢ null
  pub below : p < w.next
  pub no_host : w.host_files p ≡ none
  pub no_file : w.fd_files p ≡ none

module _ {h : Ptr → ℕ} (w : World) (c : Counts h w) where
  -- An address that is given out and not used.
  pub IsCounted-next : IsCounted h w.fd_files w.host_files (w.next + 1)
  IsCounted-next = record {
    counted = c.counted;
    backed = c.backed;
    owned = c.owned;
    standard = c.standard;
    unused = λ p le. c.unused p (omega arith);
    not_null = ground (arith, c.not_null);
  }

  pub Unowned-fresh : (q : Ptr) → w.host_files q ≡ none → Unowned w.fd_files q
  Unowned-fresh q empty p g e same = ground (arith, c.backed p g)

  module _ (q : Ptr) (u : IsFresh w q) where
    -- A HostFile at a new address.
    pub IsCounted-host :
        (g : HostFile) → IsCounted h w.fd_files (put w.host_files q (some g)) w.next
    IsCounted-host g = record {
      counted = c.counted;
      backed = λ p f e. ground (arith, c.backed p f);
      owned = c.owned;
      standard = c.standard;
      unused = λ p le. ground (arith, c.unused p, u.below);
      not_null = c.not_null;
    }

    -- An FDFile at a new address.
    pub IsCounted-new :
        (f : FdFile)
        → w.host_files f.dev.file ≢ none
        → Unowned w.fd_files f.dev.file
        → f.refs ≡ 0
        → f.ops ≡ all_ops
        → IsCounted h (put w.fd_files q (some f)) w.host_files w.next
    IsCounted-new f live mine zero_refs ops = record {
      counted = λ p nz. ground (arith, c.counted p nz, u.no_file);
      backed = λ p g e. ground (arith, c.backed p g);
      owned = λ p r g g' e1 e2 ne. ground (arith, c.owned p r g g', mine p g, mine r g');
      standard = λ p g e. ground (arith, c.standard p g);
      unused = λ p le. ground (arith, c.unused p, u.below);
      not_null = ground (arith, c.not_null, u.not_null);
    }

-- The address that malloc gives next.
pub fresh-next : (w : World) → IsSound w → IsFresh (record w { next = w.next + 1 }) w.next
fresh-next w s = record {
  not_null = ground (arith, s.refs.not_null);
  below = omega arith;
  no_host = ground (arith, s.refs.unused w.next);
  no_file = ground (arith, s.refs.unused w.next);
}

-- What malloc leaves: NULL or a fresh address, and the files as they were.
pub record Allocated (w : World) (p : Ptr) (v : World) : Type 0 where
  pub sound : IsSound v
  pub same_proc : v.proc ≡ w.proc
  pub same_hosts : v.host_files ≡ w.host_files
  pub same_files : v.fd_files ≡ w.fd_files
  pub fresh : (p ≡ null) ⊎ IsFresh v p

pub malloc-Allocated : (n : ℕ) (w : World) → IsSound w → Holds (Allocated w) (malloc n w)
unfolding malloc
malloc-Allocated n w s = elim (Bool-cases (int_eq (w.oracle w.log (Call.malloc n)).ret (pos 0))) [
  | inl e ↦ rw e record {
    sound = record { size = s.size; refs = s.refs; keeps = s.keeps };
    same_proc = refl;
    same_hosts = refl;
    same_files = refl;
    fresh = inl refl;
  }
  | inr e ↦ rw e record {
    sound = record { size = s.size; refs = IsCounted-next w s.refs; keeps = s.keeps };
    same_proc = refl;
    same_hosts = refl;
    same_files = refl;
    fresh =
        let u = fresh-next w s in
        inr record {
          not_null = u.not_null;
          below = u.below;
          no_host = u.no_host;
          no_file = u.no_file;
        };
  }
]
