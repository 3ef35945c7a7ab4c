-- ===== src/Syscalls/Quiet.antt =====
-- Runs that leave the process and its files as they are, though they call the host and write to the
-- guest's memory.
pub mod Data
pub mod Paths
pub mod Mem
use libtux.Base.{
  ℕ, ◌≡◌, ◌≢◌, ◌==◌, ◌⊎◌, inl, inr, refl, true, false, Option, none, some, arith, ℤ, if◌then◌else◌,
  Bool-cases, ◌∙◌,
}
use libtux.World.{
  Ptr, null, HostFile, FdFile, FilePath, World, Run, ok, aborted, fault, Cmd, and_then, pure, ◌>>=◌,
}
use libtux.World.Total.{Holds, Holds-bind}
use libtux.Types.{err, Errno}
use libtux.File.{all_ops}
use libtux.Fd.{slot, fdget, fdhas_x, get_fd_file}
use libtux.Fd.Refs.{IsSound}
use libtux.Fd.Ready.{IsLive}
use libtux.Fd.View.{resolve}
use libtux.AddrSpace.Access.{procpath, procbufalign}
use libtux.AddrSpace.Paths.{procpath-same}
use libtux.Syscalls.{with_file, or_fault, or_no_path}
use libtux.Syscalls.File.{getfdir, no_dir}
use libtux.Syscalls.File.Paths.{with_dir}
use libtux.Syscalls.File.Refine.{with_file-open}
use libtux.Syscalls.File.Lookup.{Located, getfdir-Located}

abbrev pub SameFiles : World → World → Type 0
SameFiles w v =
    (v.proc ≡ w.proc)
    × (v.fd_files ≡ w.fd_files)
    × (v.host_files ≡ w.host_files)
    × (v.next ≡ w.next)

-- The run does not fault, and if it returns the files are the same.
abbrev pub Quiet : {A : Type 0} → World → Run A → Type 0
Quiet w (ok a v) = SameFiles w v
Quiet w aborted = Unit
Quiet w fault = ⊥

module _ {A B : Type 0} where
  pub Quiet-bind :
      (w : World) (r : Run A) (k : A → Cmd B)
      → Quiet w r
      → ((a : A) (v : World) → SameFiles w v → Quiet w (k a v))
      → Quiet w (and_then r k)
  Quiet-bind w (ok a v) k h next = next a v h
  Quiet-bind w aborted k h next = tt
  Quiet-bind w fault k h next = elim h [ ]

  -- After a run that returns.
  pub Quiet-after :
      (w : World) (P : A → World → Type 0) (r : Run A) (k : A → Cmd B)
      → Holds P r
      → ((a : A) (v : World) → P a v → Quiet w (k a v))
      → Quiet w (and_then r k)
  Quiet-after w P (ok a v) k h next = next a v h
  Quiet-after w P aborted k h next = elim h [ ]
  Quiet-after w P fault k h next = elim h [ ]

-- The files are sound where they are the same.
pub SameFiles-IsSound : (w v : World) → SameFiles w v → IsSound w → IsSound v
SameFiles-IsSound w v (e1, e2, e3, e4) s = record {
  size = rw e1 s.size;
  refs = rw (e1, e2, e3, e4) s.refs;
  keeps = rw e2 s.keeps;
}

module _ (w : World) (s : IsSound w) where
  -- A handler of a descriptor is quiet if it is on an open file.
  pub with_file-Quiet :
      (fd : ℤ) (body : FdFile → Cmd ℤ)
      → ((f : FdFile) → w.host_files f.dev.file ≢ none → f.ops ≡ all_ops → Quiet w (body f w))
      → Quiet w (with_file fd body w)
  unfolding with_file fdget fdhas_x
  with_file-Quiet fd body on_file = elim (resolve fd w s) [
    | inl (free, view) ↦
        let z : (slot w.proc.files fd == null) ≡ true = ground (arith, free) in
        rw z (refl, refl, refl, refl)
    | inr (ff, f, h, o) ↦
        rw (with_file-open w fd ff f h o body) (on_file f (ground (arith, o.device)) o.ops)
  ]

  -- So is a handler relative to a directory, if it is on one that is there.
  pub with_dir-Quiet :
      (dirfd : ℤ) (body : Ptr → Cmd ℤ)
      → IsLive w w.proc.cwd_file
      → ((dir : Ptr) (v : World) → SameFiles w v → IsLive v dir → Quiet w (body dir v))
      → Quiet w (with_dir dirfd body w)
  unfolding with_dir
  with_dir-Quiet dirfd body live in_dir =
      Quiet-after w (Located w) _ _ (getfdir-Located dirfd w s live) λ dir v l.
        let same : SameFiles w v = (l.same_proc, l.same_files, l.same_hosts, l.same_next) in
        elim (Bool-cases (no_dir dirfd dir)) [
          | inl e ↦ rw e same
          | inr e ↦ rw e (in_dir dir v same l.live)
        ]

-- The check of a pointer changes nothing.
procbufalign-same :
    (bufp size align : ℕ) (w : World) → (p : Ptr) × (procbufalign bufp size align w ≡ ok p w)
unfolding procbufalign
procbufalign-same bufp size align w = (_, refl)

-- A handler with a checked pointer is quiet if it is with any pointer.
pub or_fault-Quiet :
    (w v : World) (bufp size align : ℕ) (body : Ptr → Cmd ℤ)
    → SameFiles w v
    → ((q : Ptr) → Quiet w (body q v))
    → Quiet w (or_fault (procbufalign bufp size align) body v)
unfolding or_fault
or_fault-Quiet w v bufp size align body same each =
    let (p, e) = procbufalign-same bufp size align v in
    elim (Bool-cases (p == null)) [ inl z ↦ rw (e, z) same | inr z ↦ rw (e, z) (each p) ]

module _ (w v : World) (pathp : ℕ) (body : FilePath → Cmd ℤ) (same : SameFiles w v)
    (each : (path : FilePath) → Quiet w (body path v)) where
  found_path-Quiet :
      (found : Option FilePath)
      → procpath pathp v ≡ ok found v
      → Quiet w (or_no_path (procpath pathp) body v)
  unfolding or_no_path
  found_path-Quiet none e = rw e same
  found_path-Quiet (some path) e = rw e (each path)

  -- So is one with a path.
  pub or_no_path-Quiet : Quiet w (or_no_path (procpath pathp) body v)
  or_no_path-Quiet = let (found, e) = procpath-same pathp v in found_path-Quiet found e
