-- ===== src/Fd/Table.antt =====
-- The operations on the table of descriptors keep the reference counts right.
use libtux.Base.{
  ℕ, ◌+◌, ◌<◌, ◌≡◌, ◌≢◌, true, some, inl, inr, arith, get_or, set, length, length-set, count-set,
  count-pos, pos,
}
use libtux.World.{Ptr, null, FdFile, World, ok, put}
use libtux.Fd.{
  nofile, size_mod, with_files, fdassign, fdrelease, fdremove, fdremove_x, remove_at, fdhas_x,
  set_slot, get_fd_file,
}
use libtux.Fd.Refs.{
  Counts, Keeps, IsSound, IsCounted-put, IsCounted-eq, holders, holders_small, fewer,
}
use libtux.Fd.Release.{Releases, Releases-Keeps, fdrelease-Counts}

abbrev pub assigned : ℕ → Ptr → FdFile → World → World
assigned fd ff f w = record w {
  fd_files = put w.fd_files ff (some (record f { refs = f.refs + 1 }));
  proc = record w.proc { files = set w.proc.files fd ff };
}

-- A free descriptor that is given to an FDFile, which may have no reference yet.
pub fdassign-IsSound :
    (fd : ℕ) (ff : Ptr) (f : FdFile) (w : World)
    → length w.proc.files ≡ nofile
    → Counts (holders w.proc) w
    → ((p : Ptr) (g : FdFile) → p ≢ ff → w.fd_files p ≡ some g → 0 < g.refs)
    → ff ≢ null
    → w.fd_files ff ≡ some f
    → fd < nofile
    → get_or w.proc.files fd null ≡ null
    → (fdassign fd ff w ≡ ok tt (assigned fd ff f w)) × IsSound (assigned fd ff f w)
unfolding fdassign get_fd_file set_slot
fdassign-IsSound fd ff f w size c keeps n e lt free = (
  ground (arith, c.counted ff n, holders_small w.proc ff size),
  record {
    size = ground (arith, length-set w.proc.files fd ff);
    refs =
        IsCounted-put c ff f (holders (assigned fd ff f w).proc) (f.refs + 1) e
          (ground (arith, c.counted ff n, count-set ff w.proc.files fd ff))
          (λ p nz ne. ground (arith, count-set p w.proc.files fd ff));
    keeps = λ p g there. ground (arith, keeps p g);
  },
)

-- The state after a descriptor's slot is emptied.
abbrev pub cleared : ℕ → World → World
cleared fd v = with_files v (set v.proc.files fd null)

-- A file that a descriptor names is held.
pub slot-held :
    (w : World) (fd : ℕ)
    → length w.proc.files ≡ nofile
    → fd < nofile
    → 0 < holders w.proc (get_or w.proc.files fd null)
slot-held w fd size lt = omega (arith, count-pos w.proc.files fd (omega arith))

-- A release changes nothing of the process.
pub Releases-proc : (n : ℕ) (ff : Ptr) (w v : World) → Releases n ff w v → v.proc ≡ w.proc
Releases-proc n ff w v (inl (f, e, many, same)) = rw same
Releases-proc n ff w v (inr (f, h, e, live, one, same)) = rw same

module _ (fd : ℕ) (w v : World) where
  -- fdremove is a release and an empty slot.
  fdremove-fdrelease :
      length w.proc.files ≡ nofile
      → fd < nofile
      → get_or w.proc.files fd null ≢ null
      → fdrelease (get_or w.proc.files fd null) w ≡ ok tt v
      → v.proc ≡ w.proc
      → fdremove (pos fd) w ≡ ok true (cleared fd v)
  unfolding fdremove fdremove_x remove_at fdhas_x set_slot
  fdremove-fdrelease size lt used e same = ground arith

  -- With the slot emptied, the process holds the file once less.
  cleared-IsSound :
      IsSound w
      → fd < nofile
      → get_or w.proc.files fd null ≢ null
      → Counts (fewer (holders w.proc) (get_or w.proc.files fd null)) v
      → Keeps v
      → v.proc ≡ w.proc
      → IsSound (cleared fd v)
  cleared-IsSound s lt used c k same = record {
    size = ground (arith, s.size, length-set w.proc.files fd null);
    refs =
        IsCounted-eq
          (λ p nz. ground (
            arith,
            s.size,
            count-set p w.proc.files fd null,
            count-pos w.proc.files fd (omega (arith, s.size)),
          ))
          c;
    keeps = k;
  }

-- fdremove of a descriptor in use answers true: the slot is empty, the file has lost one reference,
-- and it is closed and freed if that was its last. The counts stay right.
pub fdremove-IsSound :
    (fd : ℕ) (w : World)
    → IsSound w
    → fd < nofile
    → get_or w.proc.files fd null ≢ null
    → (v : World) × (fdremove (pos fd) w ≡ ok true (cleared fd v))
      × IsSound (cleared fd v)
      × Releases (holders w.proc (get_or w.proc.files fd null)) (get_or w.proc.files fd null) w v
fdremove-IsSound fd w s lt used =
    let ff : Ptr = get_or w.proc.files fd null in
    let held = slot-held w fd s.size lt in
    let small : holders w.proc ff < size_mod = omega (arith, holders_small w.proc ff s.size) in
    let (v, e, c, r) = fdrelease-Counts {h = holders w.proc} ff w s.refs used held small in
    let same = Releases-proc (holders w.proc ff) ff w v r in
    (
      v,
      fdremove-fdrelease fd w v s.size lt used e same,
      cleared-IsSound fd w v s lt used c (Releases-Keeps (holders w.proc) ff w v s.keeps c used r)
          same,
      r,
    )
