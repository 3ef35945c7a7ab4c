-- ===== src/Syscalls/Cwd/Change.antt =====
-- Setting the working directory keeps the reference counts and the directory's owner right.
use libtux.Base.{
  ℕ, ◌≡◌, ◌≢◌, ◌⊎◌, inl, inr, refl, Option, none, some, arith, ℤ, pos, sym, ◌∙◌, ap, bit_or,
}
use libtux.World.{Ptr, null, FilePath, File, Proc, World, ok, pure, modify, gets, ◌>>=◌, ◌>>◌}
use libtux.World.Total.{Holds, Holds-ran}
use libtux.Types.{err, Errno}
use libtux.Types.Open
use libtux.AddrSpace.Access.{procpath}
use libtux.AddrSpace.Paths.{procpath-same}
use libtux.Host.File.{host_openat}
use libtux.Fd.Refs.{IsSound}
use libtux.Fd.Opening.{Opened, host_openat-Opened}
use libtux.Syscalls.{or_no_path}
use libtux.Syscalls.Cwd.{leave_cwd, sys_chdir}
use libtux.Syscalls.Cwd.Leave.{HasCwd, HasCwd-IsLive, Left, leave_cwd-Left, without_cwd}

-- TUX_O_DIRECTORY | TUX_O_PATH
abbrev pub dir_flags : ℕ
dir_flags = bit_or Open.directory Open.path

abbrev with_cwd_file : World → Ptr → World
with_cwd_file w file = record w { proc = record w.proc { cwd_file = file } }

-- The host's open leaves the old directory its owner.
Opened-HasCwd : (w v : World) (hf : Ptr) → IsSound w → HasCwd w → Opened w hf v → HasCwd v
Opened-HasCwd w v hf s h o = record {
  held_by = rw (o.same_proc, o.same_files) h.held_by;
  own =
      rw (o.same_proc, o.same_files)
        (λ e. elim (h.own e) [
          | inl z ↦ inl z
          | inr (live, mine) ↦ inr (rw (o.same_hosts w.proc.cwd_file live) live, mine)
        ]);
}

-- The new directory is not the old one.
new_dir :
    (w v : World) (hf : Ptr)
    → IsSound w
    → HasCwd w
    → Opened w hf v
    → hf ≢ null
    → hf ≢ v.proc.cwd_file
new_dir w v hf s h o nz same =
    let old : hf ≡ w.proc.cwd_file = same ∙ ap (λ (p : Proc). p.cwd_file) o.same_proc in
    elim o.new [
      | inl z ↦ nz z
      | inr fresh ↦ elim (HasCwd-IsLive w s h) [
        | inl z ↦ nz (old ∙ z)
        | inr live ↦ live (rw (← old) fresh)
      ]
    ]

-- The new directory, once the old one is given back.
entered :
    (w v u : World) (hf : Ptr)
    → IsSound w
    → HasCwd w
    → Opened w hf v
    → Left v u
    → IsSound (with_cwd_file u hf) × HasCwd (with_cwd_file u hf)
entered w v u hf s h o l = (
  record { size = l.sound.size; refs = l.sound.refs; keeps = l.sound.keeps },
  record {
    held_by = λ f at.
        let z : u.proc.cwd_fd ≡ null = ap (λ (p : Proc). p.cwd_fd) l.same_proc in
        absurd (ground (arith, l.sound.refs.not_null));
    own = λ e. elim o.host [
      | inl z ↦ inl z
      | inr (nz, live, mine) ↦ inr (
        rw (l.kept hf (new_dir w v hf s h o nz)) live,
        λ p g at same.
            let (f, at', d) = l.from p g at in
            mine p f at' (ap (λ (d : File). d.file) (sym d) ∙ same),
      )
    ];
  },
)

-- procpath refuses the path and nothing changes, or the process has what the host opened for its
-- directory, NULL included, and no FDFile for it.
abbrev pub ChdirResult : World → ℕ → ℤ → World → Type 0
ChdirResult w pathp r v =
    IsSound v
    × HasCwd v
    × (((r ≡ err Errno.efault) × (v ≡ w) × (procpath pathp w ≡ ok none w))
        ⊎ ((r ≡ pos 0)
            × (path : FilePath) × (procpath pathp w ≡ ok (some path) w)
            × (hf : Ptr) × (u : World) × (host_openat w.proc.cwd_file path dir_flags 0 w ≡ ok hf u)
            × (v.proc ≡ record (without_cwd w.proc) { cwd_file = hf })))

module _ (w : World) (s : IsSound w) (h : HasCwd w) where
  -- From the path on.
  chdir_to :
      (pathp : ℕ) (path : FilePath)
      → procpath pathp w ≡ ok (some path) w
      → Holds (ChdirResult w pathp) (
          (do
            dir ← gets (λ w. w.proc.cwd_file)
            file ← host_openat dir path (bit_or Open.directory Open.path) 0
            leave_cwd
            modify (λ w. record w { proc = record w.proc { cwd_file = file } })
            pure (pos 0))
            w)
  chdir_to pathp path good =
      let (hf, v, ran, o) =
        Holds-ran (Opened w) (host_openat w.proc.cwd_file path dir_flags 0 w)
          (host_openat-Opened w.proc.cwd_file path dir_flags 0 w s (HasCwd-IsLive w s h)) in
      let (u, e, l) = leave_cwd-Left v o.sound (Opened-HasCwd w v hf s h o) in
      let (sound, cwd) = entered w v u hf s h o l in
      rw (ran, e)
        (
          sound,
          cwd,
          inr (
            refl,
            path,
            good,
            hf,
            v,
            ran,
            ap {A = Proc} {B = Proc} (λ p. record p { cwd_file = hf })
                (l.same_proc ∙ ap without_cwd o.same_proc),
          ),
        )

  chdir_found :
      (pathp : ℕ) (found : Option FilePath)
      → procpath pathp w ≡ ok found w
      → Holds (ChdirResult w pathp) (sys_chdir pathp w)
  unfolding sys_chdir or_no_path
  chdir_found pathp none e = rw e (s, h, inl (refl, refl, e))
  chdir_found pathp (some path) e = rw e (chdir_to pathp path e)

  -- In a sound state whose working directory has its owner, sys_chdir returns and both stay so.
  -- For a path that procpath refuses it answers -TUX_EFAULT and nothing changes; for any other it
  -- answers 0, and the working directory is what host_openat gave for the path, NULL included,
  -- with no FDFile for it.
  pub sys_chdir-ChdirResult : (pathp : ℕ) → Holds (ChdirResult w pathp) (sys_chdir pathp w)
  sys_chdir-ChdirResult pathp = let (found, e) = procpath-same pathp w in chdir_found pathp found e
