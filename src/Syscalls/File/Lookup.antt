-- ===== src/Syscalls/File/Lookup.antt =====
-- Finding the directory of a call: getfdir changes nothing but the log.
use libtux.Base.{
  ◌/◌, ◌%◌, ◌≡◌, ◌≢◌, ◌==◌, inl, inr, refl, true, false, none, ℤ, pos, int_eq, if◌then◌else◌, arith,
  Bool-cases, Bool,
}
use libtux.World.{Ptr, null, Call, Answer, HostFile, FdFile, World, ok}
use libtux.World.Total.{Holds}
use libtux.Types.{at_fdcwd}
use libtux.Host.{host_fd}
use libtux.Host.Stat.{host_isdir}
use libtux.Fd.{slot, fdget, fdhas_x, get_fd_file}
use libtux.Fd.Refs.{IsSound}
use libtux.Fd.View.{IsOpen, resolve}
use libtux.Fd.Ready.{IsLive}
use libtux.Syscalls.File.{getfdir}
use libtux.Syscalls.File.Refine.{called}

-- A directory that was looked up, with nothing but the log changed.
pub record Located (w : World) (dir : Ptr) (v : World) : Type 0 where
  pub sound : IsSound v
  pub same_proc : v.proc ≡ w.proc
  pub same_oracle : v.oracle ≡ w.oracle
  pub live : IsLive v dir
  pub same_files : v.fd_files ≡ w.fd_files
  pub same_hosts : v.host_files ≡ w.host_files
  pub same_next : v.next ≡ w.next

-- The file that fstat tells of is a directory.
abbrev pub is_dir : Answer → Bool
is_dir a = if int_eq a.ret (pos 0) then a.stat.st_mode / 0x1000 % 16 == 4 else false

IsLive-if :
    (w : World) (p : Ptr) (b : Bool) → w.host_files p ≢ none → IsLive w (if b then p else null)
IsLive-if w p true live = inr live
IsLive-if w p false live = inl refl

module _ (dirfd : ℤ) (w : World) (s : IsSound w) where
  -- The descriptor's file is asked whether it is a directory.
  getfdir_open :
      (ff : Ptr) (f : FdFile) (h : HostFile)
      → int_eq dirfd at_fdcwd ≡ false
      → IsOpen w dirfd ff f h
      → getfdir dirfd w
        ≡ ok
            (if is_dir (w.oracle w.log (Call.fstat h.fd)) then f.dev.file else null)
            (called w (Call.fstat h.fd))
  unfolding getfdir fdget fdhas_x get_fd_file host_isdir host_fd
  getfdir_open ff f h e o = ground (arith, e, o.at, o.not_null, o.file, o.ops, o.device)

  pub getfdir-Located : IsLive w w.proc.cwd_file → Holds (Located w) (getfdir dirfd w)
  unfolding getfdir fdget fdhas_x
  getfdir-Located live = elim (Bool-cases (int_eq dirfd at_fdcwd)) [
    | inl e ↦ rw e record {
      sound = s;
      same_proc = refl;
      same_oracle = refl;
      same_files = refl;
      same_hosts = refl;
      same_next = refl;
      live = live;
    }
    | inr e ↦ elim (resolve dirfd w s) [
      | inl (free, view) ↦
          let nz : (slot w.proc.files dirfd == null) ≡ true = ground (arith, free) in
          rw (e, nz)
            record {
              sound = s;
              same_proc = refl;
              same_oracle = refl;
              same_files = refl;
              same_hosts = refl;
              same_next = refl;
              live = inl refl;
            }
      | inr (ff, f, h, o) ↦ rw (getfdir_open ff f h e o) record {
        sound = record { size = s.size; refs = s.refs; keeps = s.keeps };
        same_proc = refl;
        same_oracle = refl;
        same_files = refl;
        same_hosts = refl;
        same_next = refl;
        live = IsLive-if w f.dev.file _ (ground (arith, o.device));
      }
    ]
  ]
