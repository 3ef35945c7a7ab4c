-- ===== src/Fd.antt =====
-- src/fd.c: the table of file descriptors and the reference counts of its files. Each function
-- holds the lock of the table or of the file, so it is one step.
pub mod Alloc
pub mod Table
pub mod Clear
pub mod Init
pub mod View
pub mod Release
pub mod Refs
pub mod Ready
pub mod Opening
pub mod Growth
pub mod Making
pub mod Race
use libtux.Base.{
  ◌∷◌, ℕ, zero, suc, ◌+◌, ◌-◌, ◌%◌, ◌^◌, ◌==◌, Bool, true, false, ◌&&◌, not, List, Option, none,
  some, ltb, length, get_or, set, if◌then◌else◌, ℤ, pos, negsuc, neg,
}
use libtux.World.{
  Ptr, null, FdFile, Tux, Proc, World, ok, fault, Cmd, ◌>>=◌, ◌>>◌, pure, gets, modify, put,
}
use libtux.File.{put_fd_file, fileclose}

-- TUX_NOFILE
abbrev pub nofile : ℕ
nofile = 128

-- size_t
abbrev pub size_mod : ℕ
size_mod = 2 ^ 64

-- A fault where no FDFile lives.
unfoldable pub get_fd_file : Ptr → Cmd FdFile
get_fd_file p w = elim (w.fd_files p) [ none ↦ fault | some f ↦ ok f w ]

abbrev pub with_files : World → List Ptr → World
with_files w fs = record w { proc = record w.proc { files = fs } }

-- t->files[fd] = ff
unfoldable pub set_slot : ℕ → Ptr → Cmd (Unit {0})
set_slot fd ff w =
    if ltb fd (length w.proc.files) then ok tt (with_files w (set w.proc.files fd ff)) else fault

unfoldable pub fdassign : ℕ → Ptr → Cmd (Unit {0})
fdassign fd ff = do
  f ← get_fd_file ff
  put_fd_file ff (record f { refs = (f.refs + 1) % size_mod })
  set_slot fd ff

-- The loop from index `i`, with the rounds left. -1 if it runs to the end.
unfoldable pub alloc_loop : ℕ → ℕ → List Ptr → ℤ
alloc_loop zero i files = neg 1
alloc_loop (suc k) i files =
    let rest = alloc_loop k (suc i) files in if get_or files i null == null then pos i else rest

unfoldable pub fdalloc : Cmd ℤ
fdalloc = gets (λ w. alloc_loop nofile 0 w.proc.files)

-- t->files[fd], NULL for a number that is no descriptor.
abbrev pub slot : List Ptr → ℤ → Ptr
slot files (pos fd) = if ltb fd nofile then get_or files fd null else null
slot files (negsuc _) = null

unfoldable pub fdhas_x : ℤ → Cmd Bool
fdhas_x fd = gets (λ w. not (slot w.proc.files fd == null))

unfoldable pub close_and_free : Ptr → FdFile → Cmd (Unit {0})
close_and_free ff f = do
  if f.ops.close then (do fileclose f.dev; pure tt) else pure tt
  modify (λ w. record w { fd_files = put w.fd_files ff none })

-- The deferred unlock of `lk_refs`, which stands in the FDFile: one that is gone is used after it was
-- freed.
unfoldable pub unlock_refs : Ptr → Cmd (Unit {0})
unlock_refs ff w = elim (w.fd_files ff) [
  | none ↦ ok tt (record w { stale = ff ∷ w.stale })
  | some f ↦ ok tt w
]

-- The reference is given up first; the last one closes the device and frees the FDFile. The mutex is
-- unlocked at the end.
unfoldable pub fdrelease : Ptr → Cmd (Unit {0})
fdrelease ff = do
  f ← get_fd_file ff
  let refs = (f.refs + size_mod - 1) % size_mod
  put_fd_file ff (record f { refs = refs })
  if refs == 0 then close_and_free ff f else pure tt
  unlock_refs ff

abbrev pub index : ℤ → ℕ
index (pos fd) = fd
index (negsuc _) = 0

unfoldable pub remove_at : ℕ → Ptr → Cmd Bool
remove_at fd ff = do fdrelease ff; set_slot fd null; pure true

unfoldable pub fdremove_x : ℤ → Cmd Bool
fdremove_x fd w =
    (do
      found ← fdhas_x fd
      if found then remove_at (index fd) (slot w.proc.files fd) else pure false)
      w

unfoldable pub fdget : ℤ → Cmd Ptr
fdget fd w = (do found ← fdhas_x fd; pure (if found then slot w.proc.files fd else null)) w

unfoldable pub fdremove : ℤ → Cmd Bool
fdremove fd = fdremove_x fd

unfoldable pub fdhas : ℤ → Cmd Bool
fdhas fd = fdhas_x fd

-- The loop from `fd` on, with the rounds left.
unfoldable pub clear_loop : ℕ → ℕ → Cmd (Unit {0})
clear_loop zero fd = pure tt
clear_loop (suc k) fd = do fdremove_x (pos fd); clear_loop k (suc fd)

unfoldable pub fdclear : Cmd (Unit {0})
fdclear = clear_loop nofile 0

unfoldable pub fdinit : Cmd (Unit {0})
fdinit w =
    (do fdassign 0 w.proc.tux.fstdin; fdassign 1 w.proc.tux.fstdout; fdassign 2 w.proc.tux.fstderr)
      w
