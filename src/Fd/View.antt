-- ===== src/Fd/View.antt =====
-- The abstract view of the descriptors: the host's descriptor behind each of the guest's.
use libtux.Base.{
  ℕ, ◌<◌, ◌≡◌, ◌≢◌, ◌==◌, ◌⊎◌, inl, inr, refl, Option, none, some, get_or, arith, ℤ, pos, negsuc,
  Bool-cases, ltb, if◌then◌else◌,
}
use libtux.World.{Ptr, null, HostFile, FdFile, World}
use libtux.File.{all_ops}
use libtux.Fd.{nofile, slot, size_mod}
use libtux.Fd.Refs.{IsSound, holders, holders_small}
use libtux.Fd.Release.{held, held_open}
use libtux.Fd.Table.{slot-held}

abbrev pub device_fd : World → Option FdFile → Option ℤ
device_fd w none = none
device_fd w (some f) = elim (w.host_files f.dev.file) [ none ↦ none | some h ↦ some h.fd ]

abbrev pub host_of : World → ℤ → Option ℤ
host_of w fd =
    let ff = slot w.proc.files fd in if ff == null then none else device_fd w (w.fd_files ff)

-- What a descriptor in use stands for.
pub record IsOpen (w : World) (fd : ℤ) (ff : Ptr) (f : FdFile) (h : HostFile) : Type 0 where
  pub at : slot w.proc.files fd ≡ ff
  pub not_null : ff ≢ null
  pub file : w.fd_files ff ≡ some f
  pub device : w.host_files f.dev.file ≡ some h
  pub ops : f.ops ≡ all_ops
  pub refs : f.refs ≡ holders w.proc ff
  pub small : f.refs < size_mod
  pub view : host_of w fd ≡ some h.fd

abbrev pub Resolved : World → ℤ → Type 0
Resolved w fd =
    ((slot w.proc.files fd ≡ null) × (host_of w fd ≡ none))
    ⊎ ((ff : Ptr) × (f : FdFile) × (h : HostFile) × IsOpen w fd ff f h)

module _ (n : ℕ) (w : World) (s : IsSound w) (lt : n < nofile) where
  resolve_file :
      (ff : Ptr) (f : FdFile) (h : HostFile)
      → get_or w.proc.files n null ≡ ff
      → ff ≢ null
      → w.fd_files ff ≡ some f
      → w.host_files f.dev.file ≡ some h
      → f.refs ≡ holders w.proc ff
      → IsOpen w (pos n) ff f h
  resolve_file ff f h here used e live refs = record {
    at = ground arith;
    not_null = used;
    file = e;
    device = live;
    ops = s.refs.standard ff f e;
    refs = refs;
    small = omega (arith, refs, holders_small w.proc ff s.size);
    view = ground (arith, here, used, e, live);
  }

  resolve_slot : get_or w.proc.files n null ≢ null → Resolved w (pos n)
  resolve_slot used =
      let ff : Ptr = get_or w.proc.files n null in
      let (f, e, refs) = held w ff s.refs used (slot-held w n s.size lt) in
      let (h, live) = held_open w ff f s.refs e in
      inr (ff, f, h, resolve_file ff f h refl used e live refs)

-- In a sound state a descriptor is free, or all that it leads to is there.
pub resolve : (fd : ℤ) (w : World) → IsSound w → Resolved w fd
resolve (negsuc n) w s = inl (refl, refl)
resolve (pos n) w s = elim (Bool-cases (ltb n nofile)) [
  | inr out ↦ inl (ground arith, ground arith)
  | inl lt ↦ elim (Bool-cases (get_or w.proc.files n null == null)) [
    | inl free ↦ inl (ground arith, ground arith)
    | inr used ↦ resolve_slot n w s (ground arith) (ground arith)
  ]
]
