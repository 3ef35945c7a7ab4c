-- ===== src/Fd/Opening.antt =====
-- Opening a file of the host leaves the FDFiles as they are: host_openat of src/host/posix/file.c.
use libtux.Base.{
  ℕ, ◌≡◌, ◌≢◌, ◌==◌, ◌⊎◌, inl, inr, refl, false, none, some, arith, ℤ, is_neg, if◌then◌else◌,
  Bool-cases, Option-cases,
}
use libtux.World.{Ptr, null, Call, World, ok, FilePath, pure, ask, ◌>>=◌, ◌>>◌}
use libtux.World.Total.{Holds, Holds-bind}
use libtux.Host.{malloc, dir_fd, host_fd, put_host_file}
use libtux.Types.{at_fdcwd}
use libtux.Host.File.{host_openat}
use libtux.Host.Flags.{openflags}
use libtux.Fd.Refs.{IsSound}
use libtux.Fd.Ready.{
  IsLive, Unowned, IsFresh, Allocated, malloc-Allocated, IsCounted-host, Unowned-fresh,
}

-- What opening leaves: NULL, or a HostFile that no FDFile has.
pub record Opened (w : World) (hf : Ptr) (v : World) : Type 0 where
  pub sound : IsSound v
  pub same_proc : v.proc ≡ w.proc
  pub host : (hf ≡ null) ⊎ ((hf ≢ null) × (v.host_files hf ≢ none) × Unowned v.fd_files hf)
  pub same_files : v.fd_files ≡ w.fd_files
  pub same_hosts : (p : Ptr) → w.host_files p ≢ none → v.host_files p ≡ w.host_files p
  pub new : (hf ≡ null) ⊎ (w.host_files hf ≡ none)

dir_fd-live : (dir : Ptr) (v : World) → IsLive v dir → (d : ℤ) × (dir_fd dir v ≡ ok d v)
unfolding dir_fd host_fd
dir_fd-live dir v (inl e) = (at_fdcwd, ground arith)
dir_fd-live dir v (inr live) = elim (Option-cases (v.host_files dir)) [
  | inl e ↦ absurd (live e)
  | inr (h, e) ↦ elim (Bool-cases (dir == null)) [
    | inl z ↦ (at_fdcwd, ground arith)
    | inr nz ↦ (h.fd, ground arith)
  ]
]

module _ (path : FilePath) (flags mode : ℕ) (w v : World) (hf : Ptr) (a : Allocated w hf v) where
  -- No memory for the HostFile: NULL.
  Opened-null : hf ≡ null → Opened w null v
  Opened-null e = record {
    sound = a.sound;
    same_proc = a.same_proc;
    host = inl refl;
    same_files = a.same_files;
    same_hosts = λ p n. rw a.same_hosts refl;
    new = inl refl;
  }

  -- The host's answer to the open.
  openat-Opened :
      (d : ℤ)
      → IsFresh v hf
      → Holds (Opened w) (
          (do
            x ← ask (Call.openat d path (openflags flags) mode)
            if is_neg x.ret
                then pure null
                else do put_host_file hf (some (record { fd = x.ret })); pure hf)
            v)
  openat-Opened d u =
      elim (Bool-cases (is_neg (v.oracle v.log (Call.openat d path (openflags flags) mode)).ret)) [
        | inl e ↦ rw e record {
          sound = record { size = a.sound.size; refs = a.sound.refs; keeps = a.sound.keeps };
          same_proc = a.same_proc;
          host = inl refl;
          same_files = a.same_files;
          same_hosts = λ p n. rw a.same_hosts refl;
          new = inl refl;
        }
        | inr e ↦ rw e record {
          sound = record {
            size = a.sound.size;
            refs = IsCounted-host v a.sound.refs hf u _;
            keeps = a.sound.keeps;
          };
          same_proc = a.same_proc;
          host = inr (u.not_null, ground arith, Unowned-fresh v a.sound.refs hf u.no_host);
          same_files = a.same_files;
          same_hosts = λ p n. ground (arith, n, u.no_host, a.same_hosts);
          new = inr (rw (← a.same_hosts) u.no_host);
        }
      ]

pub host_openat-Opened :
    (dir : Ptr) (path : FilePath) (flags mode : ℕ) (w : World)
    → IsSound w
    → IsLive w dir
    → Holds (Opened w) (host_openat dir path flags mode w)
unfolding host_openat
host_openat-Opened dir path flags mode w s live =
    Holds-bind (Allocated w) (Opened w) (malloc 4 w) _ (malloc-Allocated 4 w s) λ hf v a.
      elim a.fresh [
        | inl e ↦ rw e (Opened-null path flags mode w v hf a e)
        | inr u ↦
            let (d, e) = dir_fd-live dir v (rw a.same_hosts live) in
            let nz : (hf == null) ≡ false = ground (arith, u.not_null) in
            rw (nz, e) (openat-Opened path flags mode w v hf a d u)
      ]
