-- ===== src/Guest/Good.antt =====
-- The states that the guest's calls keep: sound reference counts, and a working directory with its
-- owner.
use libtux.Base.{
  ℕ, ◌≡◌, ◌≢◌, ◌==◌, ◌⊎◌, inl, inr, false, none, some, arith, ℤ, ◌∙◌, ap, sym, subst, Bool-cases,
}
use libtux.World.{Ptr, null, FdFile, File, Tux, Proc, World, Run, ok, aborted, fault}
use libtux.World.Total.{Holds}
use libtux.Types.{err, Errno}
use libtux.Fd.{index}
use libtux.Fd.Refs.{IsSound}
use libtux.Fd.Release.{Releases, held}
use libtux.Fd.Table.{cleared, Releases-proc}
use libtux.Fd.Growth.{New}
use libtux.Syscalls.Cwd.{sys_chdir, sys_fchdir}
use libtux.Syscalls.Cwd.Leave.{HasCwd, HasCwd-IsLive, Releases-kept, Releases-from, cwd_held}
use libtux.Syscalls.Cwd.Change.{ChdirResult, sys_chdir-ChdirResult}
use libtux.Syscalls.Cwd.Fchdir.{FchdirResult, sys_fchdir-FchdirResult}
use libtux.Syscalls.File.Data.{sys_close}
use libtux.Syscalls.File.Closed.{CloseResult, sys_close-CloseResult}
use libtux.Syscalls.File.Open.{sys_openat}
use libtux.Syscalls.File.Opened.{OpenResult, sys_openat-OpenResult}
use libtux.Syscalls.Quiet.{SameFiles, SameFiles-IsSound, Quiet}

-- Without an opener of the embedder, whose use of malloc is not tested.
pub record Good (w : World) : Type 0 where
  pub sound : IsSound w
  pub cwd : HasCwd w
  pub no_opener : w.proc.tux.opts.fs_open ≡ false

-- A call does not fault. If it returns, the state is good again, unless no descriptor was free
-- for an open.
abbrev pub Outcome : World → Run ℤ → Type 0
Outcome w (ok r v) = Good v ⊎ (r ≡ err Errno.emfile)
Outcome w aborted = Unit
Outcome w fault = ⊥

Releases-file :
    (n : ℕ) (ff : Ptr) (w v : World) → Releases n ff w v → (f : FdFile) × (w.fd_files ff ≡ some f)
Releases-file n ff w v (inl (f, e, many, same)) = (f, e)
Releases-file n ff w v (inr (f, h, e, live, one, same)) = (f, e)

Outcome-Holds :
    (w : World) (P : ℤ → World → Type 0) (r : Run ℤ)
    → Holds P r
    → ((a : ℤ) (v : World) → P a v → Good v ⊎ (a ≡ err Errno.emfile))
    → Outcome w r
Outcome-Holds w P (ok a v) h each = each a v h
Outcome-Holds w P aborted h each = tt
Outcome-Holds w P fault h each = elim h [ ]

Good-same : (w v : World) → Good w → SameFiles w v → Good v
Good-same w v g (e1, e2, e3, e4) = record {
  sound = SameFiles-IsSound w v (e1, e2, e3, e4) g.sound;
  cwd = record { held_by = rw (e1, e2) g.cwd.held_by; own = rw (e1, e2, e3) g.cwd.own };
  no_opener = rw e1 g.no_opener;
}

pub Outcome-Quiet : (w : World) (r : Run ℤ) → Good w → Quiet w r → Outcome w r
Outcome-Quiet w (ok r v) g q = inl (Good-same w v g q)
Outcome-Quiet w aborted g q = tt
Outcome-Quiet w fault g q = elim q [ ]

module _ (w : World) (g : Good w) where
  same_opener : (v : World) → v.proc.tux ≡ w.proc.tux → v.proc.tux.opts.fs_open ≡ false
  same_opener v e = ap (λ (t : Tux). t.opts.fs_open) e ∙ g.no_opener

  pub chdir-Outcome : (pathp : ℕ) → Outcome w (sys_chdir pathp w)
  chdir-Outcome pathp =
      Outcome-Holds w (ChdirResult w pathp) (sys_chdir pathp w)
        (sys_chdir-ChdirResult w g.sound g.cwd pathp)
        λ r v (s, c, how). inl (record {
          sound = s;
          cwd = c;
          no_opener = same_opener v (elim how [
            | inl (_, same, _) ↦ ap (λ (u : World). u.proc.tux) same
            | inr (_, _, _, _, _, _, same) ↦ ap (λ (p : Proc). p.tux) same
          ]);
        })

  pub fchdir-Outcome : (fd : ℤ) → Outcome w (sys_fchdir fd w)
  fchdir-Outcome fd =
      Outcome-Holds w (FchdirResult w fd) (sys_fchdir fd w)
        (sys_fchdir-FchdirResult fd w g.sound g.cwd)
        λ r v (s, c, how). inl (record {
          sound = s;
          cwd = c;
          no_opener = same_opener v (elim how [
            | inl (_, _, same) ↦ ap (λ (p : Proc). p.tux) same
            | inr (_, _, _, _, inl (_, _, same)) ↦ ap (λ (p : Proc). p.tux) same
            | inr (_, _, _, _, inr (_, _, same)) ↦ ap (λ (p : Proc). p.tux) same
          ]);
        })

  -- The FDFile of the working directory was there before.
  New-cwd :
      (v : World)
      → IsSound v
      → v.proc.cwd_fd ≡ w.proc.cwd_fd
      → (f : FdFile) → v.fd_files v.proc.cwd_fd ≡ some f
      → w.fd_files v.proc.cwd_fd ≢ none
  New-cwd v s same f at none_there = elim (Bool-cases (w.proc.cwd_fd == null)) [
    | inl z ↦ absurd (ground (arith, s.refs.not_null))
    | inr n ↦
        let (f', e, _) =
          held w w.proc.cwd_fd g.sound.refs (ground arith) (cwd_held w (ground arith)) in
        absurd (ground arith)
  ]

  -- A new file takes nothing from the working directory.
  New-HasCwd :
      (v : World)
      → IsSound v
      → v.proc.cwd_fd ≡ w.proc.cwd_fd
      → v.proc.cwd_file ≡ w.proc.cwd_file
      → New w v
      → HasCwd v
  New-HasCwd v s same_fd same_file new = record {
    held_by = λ f at. elim (new.from v.proc.cwd_fd f at) [
      | inl (f', e, d) ↦
          ap (λ (d : File). d.file) d ∙ g.cwd.held_by f' (rw (← same_fd) e) ∙ sym same_file
      | inr (none_there, _) ↦ absurd (New-cwd v s same_fd f at none_there)
    ];
    own = λ e. elim (g.cwd.own (sym same_fd ∙ e)) [
      | inl z ↦ inl (same_file ∙ z)
      | inr (live, mine) ↦ rw same_file (
          inr (
            rw (new.kept w.proc.cwd_file live) live,
            λ p f at same. elim (new.from p f at) [
              | inl (f', e', d) ↦ mine p f' e' (ap (λ (d : File). d.file) (sym d) ∙ same)
              | inr (_, fresh) ↦ live (rw (← same) fresh)
            ],
          ))
    ];
  }

  New-Good :
      (v : World)
      → IsSound v
      → v.proc.cwd_fd ≡ w.proc.cwd_fd
      → v.proc.cwd_file ≡ w.proc.cwd_file
      → v.proc.tux ≡ w.proc.tux
      → New w v
      → Good v
  New-Good v s same_fd same_file same_tux new = record {
    sound = s;
    cwd = New-HasCwd v s same_fd same_file new;
    no_opener = same_opener v same_tux;
  }

  pub openat-Outcome :
      (dirfd : ℤ) (pathp flags mode : ℕ) → Outcome w (sys_openat dirfd pathp flags mode w)
  openat-Outcome dirfd pathp flags mode =
      Outcome-Holds w (OpenResult w dirfd pathp flags mode) (sys_openat dirfd pathp flags mode w)
        (sys_openat-OpenResult dirfd pathp flags mode w g.sound (HasCwd-IsLive w g.sound g.cwd)
          (inl g.no_opener))
        λ r v (new, dir, u, ran, how).
          let kept : IsSound v → v.proc ≡ w.proc → Good v = λ s same.
            New-Good v s (ap (λ (p : Proc). p.cwd_fd) same) (ap (λ (p : Proc). p.cwd_file) same)
              (ap (λ (p : Proc). p.tux) same) new in
          elim how [
            | inl (_, _, s, same) ↦ inl (kept s same)
            | inr (inl (_, _, _, s, same)) ↦ inl (kept s same)
            | inr (inr (_, _, _, ff, _, _, placed)) ↦ elim placed [
              | inl (_, _, s, same) ↦ inl (kept s same)
              | inr (inl (_, full, e)) ↦ inr e
              | inr (inr (_, _, i, _, _, s, same)) ↦ inl (
                  New-Good v s (ap (λ (p : Proc). p.cwd_fd) same)
                    (ap (λ (p : Proc). p.cwd_file) same) (ap (λ (p : Proc). p.tux) same) new)
            ]
          ]

  -- A file that is closed is not the working directory's.
  closed-HasCwd : (n : ℕ) (ff : Ptr) (u : World) (i : ℕ) → Releases n ff w u → HasCwd (cleared i u)
  closed-HasCwd n ff u i r =
      let same = Releases-proc n ff w u r in
      let (f0, at0) = Releases-file n ff w u r in
      let from = Releases-from n ff w u r in
      record {
        held_by = λ f at.
            let (f', e, d) = from u.proc.cwd_fd f at in
            ap (λ (d : File). d.file) d
            ∙ g.cwd.held_by f' (rw (← same) e)
            ∙ ap (λ (p : Proc). p.cwd_file) (sym same);
        own = rw same (λ e. elim (g.cwd.own e) [
          | inl z ↦ inl z
          | inr (live, mine) ↦ inr (
            rw (Releases-kept n ff w u r f0 at0 w.proc.cwd_file (λ z. mine ff f0 at0 (sym z))) live,
            λ p f at eq.
                let (f', e', d) = from p f at in
                mine p f' e' (ap (λ (d : File). d.file) (sym d) ∙ eq),
          )
        ]);
      }

  pub close-Outcome : (fd : ℤ) → Outcome w (sys_close fd w)
  close-Outcome fd =
      Outcome-Holds w (CloseResult w fd) (sys_close fd w) (sys_close-CloseResult fd w g.sound)
        λ r v how. elim how [
          | inl (_, _, same) ↦ inl (subst Good (sym same) g)
          | inr (_, _, s, u, rel, same) ↦ inl (record {
            sound = s;
            cwd = subst HasCwd (sym same) (closed-HasCwd _ _ u (index fd) rel);
            no_opener = same_opener v (
                ap (λ (u : World). u.proc.tux) same
                ∙ ap (λ (p : Proc). p.tux) (Releases-proc _ _ w u rel));
          })
        ]
