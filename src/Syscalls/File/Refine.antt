-- ===== src/Syscalls/File/Refine.antt =====
-- sys_write, sys_read and sys_lseek against the abstract view of the descriptors.
use libtux.Base.{ℕ, ◌≡◌, ◌==◌, none, some, ℤ, pos, is_neg, if◌then◌else◌, arith, inl, inr, leb, ◌∷◌}
use libtux.World.{Ptr, null, Call, Answer, FdFile, HostFile, World, Run, ok, aborted, Cmd}
use libtux.World.Memory.{bytes_at, copy_to}
use libtux.Types.{err, Errno}
use libtux.File.{fileread, filewrite, filelseek, filesync, filetruncate}
use libtux.Host.{host_fd, checked, tuxerr}
use libtux.Host.File.{host_read, host_write, host_seek, seekwhence, host_fsync, host_ftruncate}
use libtux.AddrSpace.{as_fmptr}
use libtux.AddrSpace.Access.{procbuf}
use libtux.Fd.{fdget, fdhas_x, get_fd_file}
use libtux.Fd.Refs.{IsSound}
use libtux.Fd.View.{host_of, IsOpen, resolve}
use libtux.Syscalls.{with_file, or_fault}
use libtux.Syscalls.File.Data.{sys_write, sys_read, sys_lseek, sys_fsync, sys_ftruncate}

-- The state after a call to the host: it is logged, and a failure leaves its errno.
abbrev pub called : World → Call → World
called w c =
    let a = w.oracle w.log c in
    record w { log = c ∷ w.log; errno = if is_neg a.ret then a.errno else w.errno }

-- What the guest gets of the host's answer: a failure is answered by the errno, not negated.
abbrev pub answered : Answer → ℤ
answered a = if is_neg a.ret then pos a.errno else a.ret

-- The same for a call whose success is 0.
abbrev pub zeroed : Answer → ℤ
zeroed a = if is_neg a.ret then pos a.errno else pos 0

-- What a descriptor that is open does, and -TUX_EBADF for one that is not.
abbrev pub on_host : World → ℤ → (ℤ → Run ℤ) → Run ℤ
on_host w fd body = elim (host_of w fd) [ none ↦ ok (err Errno.ebadf) w | some h ↦ body h ]

abbrev pub write_spec : World → ℤ → ℕ → ℕ → Run ℤ
write_spec w fd bufp size =
    if size == 0
    then ok (pos 0) w
    else on_host w fd λ h.
      let buf = as_fmptr w.proc.p_as bufp in
      let c = Call.write h (bytes_at w.mem buf size) in
      if buf == null then ok (err Errno.efault) w else ok (answered (w.oracle w.log c)) (called w c)

-- The state after a read: the kernel's bytes are in the buffer, if it did not fail.
abbrev pub read_into : World → Call → Ptr → World
read_into w c buf =
    let a = w.oracle w.log c in
    if is_neg a.ret then called w c else record (called w c) { mem = copy_to w.mem buf a.bytes }

abbrev pub read_spec : World → ℤ → ℕ → ℕ → Run ℤ
read_spec w fd bufp size =
    if size == 0
    then ok (pos 0) w
    else on_host w fd λ h.
      let buf = as_fmptr w.proc.p_as bufp in
      let c = Call.read h size in
      if buf == null
      then ok (err Errno.efault) w
      else ok (answered (w.oracle w.log c)) (read_into w c buf)

-- The host is asked to seek only where whence is one that lseek has; any other stops the process.
abbrev pub seek_spec : World → ℤ → ℤ → ℕ → Run ℤ
seek_spec w fd offset whence = on_host w fd λ h.
    let c = Call.lseek h offset whence in
    if leb whence 2 then ok (answered (w.oracle w.log c)) (called w c) else aborted

abbrev pub sync_spec : World → ℤ → Run ℤ
sync_spec w fd =
    on_host w fd λ h. ok (zeroed (w.oracle w.log (Call.fsync h))) (called w (Call.fsync h))

abbrev pub truncate_spec : World → ℤ → ℤ → Run ℤ
truncate_spec w fd length =
    on_host w fd λ h. let c = Call.ftruncate h length in ok (zeroed (w.oracle w.log c)) (called w c)

module _ (w : World) (fd : ℤ) where
  module _ (ff : Ptr) (f : FdFile) (h : HostFile) (o : IsOpen w fd ff f h) where
    pub with_file-open : (body : FdFile → Cmd ℤ) → with_file fd body w ≡ body f w
    unfolding with_file fdget fdhas_x get_fd_file
    with_file-open body = ground (arith, o.at, o.not_null, o.file)

    write_open : (bufp size : ℕ) → sys_write fd bufp size w ≡ write_spec w fd bufp size
    unfolding sys_write with_file fdget fdhas_x get_fd_file or_fault procbuf filewrite host_write
        host_fd checked tuxerr
    write_open bufp size = ground (arith, o.at, o.not_null, o.file, o.view, o.ops, o.device)

    read_open : (bufp size : ℕ) → sys_read fd bufp size w ≡ read_spec w fd bufp size
    unfolding sys_read with_file fdget fdhas_x get_fd_file or_fault procbuf fileread host_read
        host_fd checked tuxerr
    read_open bufp size = ground (arith, o.at, o.not_null, o.file, o.view, o.ops, o.device)

    seek_open :
        (offset : ℤ) (whence : ℕ) → sys_lseek fd offset whence w ≡ seek_spec w fd offset whence
    unfolding sys_lseek with_file fdget fdhas_x get_fd_file filelseek host_seek seekwhence host_fd
        checked tuxerr
    seek_open offset whence = ground (arith, o.at, o.not_null, o.file, o.view, o.ops, o.device)

    sync_open : sys_fsync fd w ≡ sync_spec w fd
    unfolding sys_fsync with_file fdget fdhas_x get_fd_file filesync host_fsync host_fd checked
        tuxerr
    sync_open = ground (arith, o.at, o.not_null, o.file, o.view, o.ops, o.device)

    truncate_open : (length : ℤ) → sys_ftruncate fd length w ≡ truncate_spec w fd length
    unfolding sys_ftruncate with_file fdget fdhas_x get_fd_file filetruncate host_ftruncate host_fd
        checked tuxerr
    truncate_open length = ground (arith, o.at, o.not_null, o.file, o.view, o.ops, o.device)

module _ (w : World) (s : IsSound w) (fd : ℤ) where
  -- In a sound state, sys_write of no bytes is 0, and of a descriptor that is not open -TUX_EBADF.
  -- Else it is one write to the host's descriptor behind it, of the bytes that the guest's buffer
  -- holds, or -TUX_EFAULT for a buffer outside of the space. A failure of the host is answered by
  -- the errno itself, not negated.
  pub sys_write_lem : (bufp size : ℕ) → sys_write fd bufp size w ≡ write_spec w fd bufp size
  unfolding sys_write with_file fdget fdhas_x
  sys_write_lem bufp size = elim (resolve fd w s) [
    | inl (free, view) ↦ ground (arith, free, view)
    | inr (ff, f, h, o) ↦ write_open w fd ff f h o bufp size
  ]

  -- In a sound state, sys_read is one read from the host's descriptor, whose bytes are put in the
  -- guest's buffer, with the answers of sys_write.
  pub sys_read_lem : (bufp size : ℕ) → sys_read fd bufp size w ≡ read_spec w fd bufp size
  unfolding sys_read with_file fdget fdhas_x
  sys_read_lem bufp size = elim (resolve fd w s) [
    | inl (free, view) ↦ ground (arith, free, view)
    | inr (ff, f, h, o) ↦ read_open w fd ff f h o bufp size
  ]

  -- In a sound state, sys_lseek of an open descriptor is one lseek of the host's, and stops the
  -- process by a failed assertion for any whence but the three of lseek.
  sys_lseek_lem :
      (offset : ℤ) (whence : ℕ) → sys_lseek fd offset whence w ≡ seek_spec w fd offset whence
  unfolding sys_lseek with_file fdget fdhas_x
  sys_lseek_lem offset whence = elim (resolve fd w s) [
    | inl (free, view) ↦ ground (arith, free, view)
    | inr (ff, f, h, o) ↦ seek_open w fd ff f h o offset whence
  ]

  -- In a sound state, sys_fsync of an open descriptor is one fsync of the host's, answered by 0 or
  -- the errno.
  pub sys_fsync_lem : sys_fsync fd w ≡ sync_spec w fd
  unfolding sys_fsync with_file fdget fdhas_x
  sys_fsync_lem = elim (resolve fd w s) [
    | inl (free, view) ↦ ground (arith, free, view)
    | inr (ff, f, h, o) ↦ sync_open w fd ff f h o
  ]

  -- In a sound state, sys_ftruncate of an open descriptor is one ftruncate of the host's, answered by
  -- 0 or the errno.
  sys_ftruncate_lem : (length : ℤ) → sys_ftruncate fd length w ≡ truncate_spec w fd length
  unfolding sys_ftruncate with_file fdget fdhas_x
  sys_ftruncate_lem length = elim (resolve fd w s) [
    | inl (free, view) ↦ ground (arith, free, view)
    | inr (ff, f, h, o) ↦ truncate_open w fd ff f h o length
  ]
