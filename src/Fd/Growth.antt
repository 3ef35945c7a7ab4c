-- ===== src/Fd/Growth.antt =====
-- How the files grow by one that is opened.
use libtux.Base.{◌≡◌, ◌≢◌, ◌⊎◌, inl, inr, refl, none, some}
use libtux.World.{Ptr, null, FdFile, World}
use libtux.Fd.Opening.{Opened}

-- Every FDFile that was there still is, for its device, and a new one has a HostFile that was not
-- there. No HostFile is gone.
pub record New (w v : World) : Type 0 where
  pub kept : (p : Ptr) → w.host_files p ≢ none → v.host_files p ≡ w.host_files p
  pub from :
      (p : Ptr) (g : FdFile)
      → v.fd_files p ≡ some g
      → ((f : FdFile) × (w.fd_files p ≡ some f) × (g.dev ≡ f.dev))
        ⊎ ((w.fd_files p ≡ none) × (w.host_files g.dev.file ≡ none))

-- The same, where the new FDFile is for the HostFile at `hf`.
pub record Grown (hf : Ptr) (w v : World) : Type 0 where
  pub same_hosts : v.host_files ≡ w.host_files
  pub made :
      (p : Ptr) (g : FdFile)
      → v.fd_files p ≡ some g
      → (w.fd_files p ≡ some g) ⊎ ((w.fd_files p ≡ none) × (g.dev.file ≡ hf))

pub Grown-same :
    (hf : Ptr) (w v : World) → v.host_files ≡ w.host_files → v.fd_files ≡ w.fd_files → Grown hf w v
Grown-same hf w v hosts files = record { same_hosts = hosts; made = λ p g e. inl (rw (← files) e) }

pub New-same : (w v : World) → v.host_files ≡ w.host_files → v.fd_files ≡ w.fd_files → New w v
New-same w v hosts files = record {
  kept = λ p n. rw hosts refl;
  from = λ p g e. inl (g, rw (← files) e, refl);
}

-- An FDFile for a HostFile that has just been opened.
pub Grown-New : (w v x : World) (hf : Ptr) → Opened w hf v → hf ≢ null → Grown hf v x → New w x
Grown-New w v x hf o n g = record {
  kept = λ p live. rw g.same_hosts (o.same_hosts p live);
  from = λ p f e. elim (g.made p f e) [
    | inl old ↦ inl (f, rw (← o.same_files) old, refl)
    | inr (none_there, same) ↦ inr (
      rw (← o.same_files) none_there,
      elim o.new [ inl z ↦ absurd (n z) | inr fresh ↦ rw same fresh ],
    )
  ];
}
