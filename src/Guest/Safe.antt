-- ===== src/Guest/Safe.antt =====
-- Whatever the guest calls, in whatever order, the handlers use no file after it is freed.
use libtux.Base.{ℕ, ◌≡◌, ◌≢◌, inl, inr, ℤ, subst}
use libtux.World.{World, Run, ok, fault}
use libtux.Types.{err, Errno}
use libtux.Syscalls.Cwd.Leave.{HasCwd-IsLive}
use libtux.Syscalls.Quiet.Data.{
  sys_write-Quiet, sys_read-Quiet, sys_writev-Quiet, sys_readv-Quiet, sys_pread64-Quiet,
  sys_getdents64-Quiet, sys_lseek-Quiet, sys_ftruncate-Quiet, sys_fchown-Quiet, sys_fchmod-Quiet,
  sys_fsync-Quiet,
}
use libtux.Syscalls.Quiet.Paths.{
  sys_readlinkat-Quiet, sys_newfstatat-Quiet, sys_truncate-Quiet, sys_chown-Quiet, sys_chmod-Quiet,
  sys_unlinkat-Quiet, sys_renameat-Quiet, sys_faccessat2-Quiet, sys_mkdirat-Quiet, sys_getcwd-Quiet,
}
use libtux.Syscalls.Quiet.{Quiet-bind}
use libtux.Syscalls.Quiet.Mem.{sys_mmap-Quiet, sys_munmap-Quiet, sys_mprotect-Quiet}
use libtux.Syscalls.Cwd.{sys_getcwd}
use libtux.Syscalls.Mem.{sys_mmap}
use libtux.Guest.{Request, handle}
use libtux.Guest.Good.{
  Good, Outcome, Outcome-Quiet, chdir-Outcome, fchdir-Outcome, openat-Outcome, close-Outcome,
}

-- A call that returns, other than an open that found every descriptor in use; or the guest changes
-- its memory.
pub data Step (w : World) : World → Type 0 where
  call : {v : World} (q : Request) (r : ℤ) → handle q w ≡ ok r v → r ≢ err Errno.emfile → Step w v
  compute : (mem : ℕ → ℕ) → Step w (record w { mem = mem })

pub data Reaches (w : World) : World → Type 0 where
  here : Reaches w w
  next : {v u : World} → Reaches w v → Step v u → Reaches w u

pub handle-Outcome : (q : Request) (w : World) → Good w → Outcome w (handle q w)
handle-Outcome (Request.write fd bufp size) w g =
    Outcome-Quiet w _ g (sys_write-Quiet w g.sound fd bufp size)
handle-Outcome (Request.read fd bufp size) w g =
    Outcome-Quiet w _ g (sys_read-Quiet w g.sound fd bufp size)
handle-Outcome (Request.writev fd iovp iovcnt) w g =
    Outcome-Quiet w _ g (sys_writev-Quiet w g.sound fd iovp iovcnt)
handle-Outcome (Request.readv fd iovp iovcnt) w g =
    Outcome-Quiet w _ g (sys_readv-Quiet w g.sound fd iovp iovcnt)
handle-Outcome (Request.pread64 fd bufp size offset) w g =
    Outcome-Quiet w _ g (sys_pread64-Quiet w g.sound fd bufp size offset)
handle-Outcome (Request.getdents64 fd dirp size) w g =
    Outcome-Quiet w _ g (sys_getdents64-Quiet w g.sound fd dirp size)
handle-Outcome (Request.lseek fd offset whence) w g =
    Outcome-Quiet w _ g (sys_lseek-Quiet w g.sound fd offset whence)
handle-Outcome (Request.ftruncate fd length) w g =
    Outcome-Quiet w _ g (sys_ftruncate-Quiet w g.sound fd length)
handle-Outcome (Request.fchown fd owner group) w g =
    Outcome-Quiet w _ g (sys_fchown-Quiet w g.sound fd owner group)
handle-Outcome (Request.fchmod fd mode) w g =
    Outcome-Quiet w _ g (sys_fchmod-Quiet w g.sound fd mode)
handle-Outcome (Request.fsync fd) w g = Outcome-Quiet w _ g (sys_fsync-Quiet w g.sound fd)
handle-Outcome (Request.openat dirfd pathp flags mode) w g =
    openat-Outcome w g dirfd pathp flags mode
handle-Outcome (Request.close fd) w g = close-Outcome w g fd
handle-Outcome (Request.readlinkat dirfd pathp bufp size) w g =
    Outcome-Quiet w _ g
      (sys_readlinkat-Quiet w g.sound (HasCwd-IsLive w g.sound g.cwd) dirfd pathp bufp size)
handle-Outcome (Request.newfstatat dirfd pathp statbufp flags) w g =
    Outcome-Quiet w _ g
      (sys_newfstatat-Quiet w g.sound (HasCwd-IsLive w g.sound g.cwd) dirfd pathp statbufp flags)
handle-Outcome (Request.truncate scratch pathp length) w g =
    Outcome-Quiet w _ g
      (sys_truncate-Quiet w g.sound (HasCwd-IsLive w g.sound g.cwd) scratch pathp length)
handle-Outcome (Request.chown pathp owner group) w g =
    Outcome-Quiet w _ g
      (sys_chown-Quiet w g.sound (HasCwd-IsLive w g.sound g.cwd) pathp owner group)
handle-Outcome (Request.chmod pathp mode) w g =
    Outcome-Quiet w _ g (sys_chmod-Quiet w g.sound (HasCwd-IsLive w g.sound g.cwd) pathp mode)
handle-Outcome (Request.unlinkat dirfd pathp flags) w g =
    Outcome-Quiet w _ g
      (sys_unlinkat-Quiet w g.sound (HasCwd-IsLive w g.sound g.cwd) dirfd pathp flags)
handle-Outcome (Request.renameat olddir oldpathp newdir newpathp) w g =
    Outcome-Quiet w _ g
      (sys_renameat-Quiet w g.sound (HasCwd-IsLive w g.sound g.cwd) olddir oldpathp newdir newpathp)
handle-Outcome (Request.faccessat2 dirfd pathp mode flags) w g =
    Outcome-Quiet w _ g
      (sys_faccessat2-Quiet w g.sound (HasCwd-IsLive w g.sound g.cwd) dirfd pathp mode flags)
handle-Outcome (Request.mkdirat dirfd pathp mode) w g =
    Outcome-Quiet w _ g
      (sys_mkdirat-Quiet w g.sound (HasCwd-IsLive w g.sound g.cwd) dirfd pathp mode)
handle-Outcome (Request.chdir pathp) w g = chdir-Outcome w g pathp
handle-Outcome (Request.fchdir fd) w g = fchdir-Outcome w g fd
handle-Outcome (Request.getcwd bufp size) w g = Outcome-Quiet w _ g (
    Quiet-bind w (sys_getcwd bufp size w) _
      (sys_getcwd-Quiet w g.sound (HasCwd-IsLive w g.sound g.cwd) bufp size) λ _ v same. same)
handle-Outcome (Request.mmap addrup length prot flags fd off) w g = Outcome-Quiet w _ g (
    Quiet-bind w (sys_mmap addrup length prot flags fd off w) _
      (sys_mmap-Quiet w g.sound addrup length prot flags fd off) λ _ v same. same)
handle-Outcome (Request.munmap addrup length) w g =
    Outcome-Quiet w _ g (sys_munmap-Quiet w g.sound addrup length)
handle-Outcome (Request.mprotect addrup length prot) w g =
    Outcome-Quiet w _ g (sys_mprotect-Quiet w g.sound addrup length prot)

Good-call :
    (w v : World) (run : Run ℤ) (r : ℤ)
    → Outcome w run
    → run ≡ ok r v
    → r ≢ err Errno.emfile
    → Good v
Good-call w v run r o e ne = elim (subst (Outcome w) e o) [
  | inl g ↦ g
  | inr full ↦ absurd (ne full)
]

Step-Good : {w v : World} → Step w v → Good w → Good v
Step-Good {w} (call {v} q r e ne) g = Good-call w v (handle q w) r (handle-Outcome q w g) e ne
Step-Good (compute mem) g = record {
  sound = record { size = g.sound.size; refs = g.sound.refs; keeps = g.sound.keeps };
  cwd = record { held_by = g.cwd.held_by; own = g.cwd.own };
  no_opener = g.no_opener;
}

-- From a good state, without an opener of the embedder, every state that the guest reaches by the
-- calls on files, directories and mappings is good, as long as no open finds every descriptor in use.
pub Reaches-Good : {w v : World} → Good w → Reaches w v → Good v
Reaches-Good g here = g
Reaches-Good g (next path step) = Step-Good step (Reaches-Good g path)

-- In every state that the guest reaches from a good one, without an opener of the embedder and as
-- long as no open finds every descriptor in use, no call on files, directories or mappings uses an
-- FDFile or HostFile that was freed, a NULL pointer to one, or an index outside of the table: it
-- returns or fails an assertion.
pub handle_never_faults : (w v : World) (q : Request) → Good w → Reaches w v → handle q v ≢ fault
handle_never_faults w v q g path e =
    elim (subst (Outcome v) e (handle-Outcome q v (Reaches-Good g path))) [ ]
