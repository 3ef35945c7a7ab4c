-- ===== src/Guest/Later.antt =====
-- States of the same files, descriptors and engine, in which more memory may be in use: what the calls
-- that touch no file lead to.
use libtux.Base.{ℕ, ◌≤◌, ◌≡◌, arith, refl}
use libtux.World.{Thread, World, Run, ok, aborted, fault}
use libtux.World.Total.{Unless}
use libtux.Fd.Refs.{IsSound}
use libtux.Syscalls.Quiet.{Quiet}
use libtux.Guest.Good.{Good}

-- Soundness of the files, in a later state of the same files and another process that holds as many.
pub IsSound-later :
    (w v : World)
    → v.fd_files ≡ w.fd_files
    → v.host_files ≡ w.host_files
    → w.next ≤ v.next
    → v.proc.files ≡ w.proc.files
    → v.proc.tux ≡ w.proc.tux
    → v.proc.cwd_fd ≡ w.proc.cwd_fd
    → IsSound w
    → IsSound v
IsSound-later w v efd eh up ef et ec s = record {
  size = rw ef s.size;
  refs = record {
    counted = rw (efd, ef, et, ec) s.refs.counted;
    backed = rw (efd, eh) s.refs.backed;
    owned = rw efd s.refs.owned;
    standard = rw efd s.refs.standard;
    unused = rw (efd, eh) (λ p le. s.refs.unused p (omega arith));
    not_null = rw efd (omega (arith, s.refs.not_null), s.refs.not_null.1);
  };
  keeps = rw efd s.keeps;
}

abbrev pub Later : World → World → Type 0
Later w v =
    (v.proc.files ≡ w.proc.files)
    × (v.proc.tux ≡ w.proc.tux)
    × (v.proc.cwd_fd ≡ w.proc.cwd_fd)
    × (v.proc.cwd_file ≡ w.proc.cwd_file)
    × (v.fd_files ≡ w.fd_files)
    × (v.host_files ≡ w.host_files)
    × (w.next ≤ v.next)

pub Later-Good : (w v : World) → Later w v → Good w → Good v
Later-Good w v (ef, et, ec, ecf, efd, eh, up) g = record {
  sound = IsSound-later w v efd eh up ef et ec g.sound;
  cwd = record { held_by = rw (ec, ecf, efd) g.cwd.held_by; own = rw (ec, ecf, efd, eh) g.cwd.own };
  no_opener = rw et g.no_opener;
}

-- The run does not fault, and if it returns the state is a later one.
abbrev pub Calm : {A : Type 0} → World → Run A → Type 0
Calm w r = Unless (λ _ v. Later w v) r

pub Quiet-Calm : {A : Type 0} (w : World) (r : Run A) → Quiet w r → Calm w r
Quiet-Calm w (ok a v) (ep, efd, eh, en) =
    rw (ep, efd, eh, en) (refl, refl, refl, refl, refl, refl, omega arith)
Quiet-Calm w aborted h = tt
Quiet-Calm w fault h = h

-- Other bytes in memory, and another thread.
pub other_memory :
    (w : World) (mem : ℕ → ℕ) (t : Thread) → Later w (record w { mem = mem; thread = t })
other_memory w mem t = (refl, refl, refl, refl, refl, refl, omega arith)
