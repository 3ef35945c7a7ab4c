-- ===== src/Process.antt =====
-- The mappings of a process: procmapany, procmapat and procunmap of src/proc.c.
pub mod Stack
pub mod Frame
pub mod Layout
pub mod Create
pub mod Begun
pub mod Setup
pub mod Space
pub mod Born
use libtux.Base.{ℕ, ◌==◌, if◌then◌else◌, ℤ, is_neg}
use libtux.World.{Ptr, null, Cmd, ◌>>=◌, pure}
use libtux.Types.{Errno}
use libtux.File.{filefile}
use libtux.Fd.{fdget, get_fd_file}
use libtux.AddrSpace.{as_mapany, as_mapat, as_munmap, failed}

-- A result or a negative errno.
pub data Mapped : Type 0 where
  at : ℕ → Mapped
  refused : Errno → Mapped

-- The file to map: none for a negative descriptor.
unfoldable pub map_file : ℤ → (Ptr → Cmd Mapped) → Cmd Mapped
map_file fd map = if is_neg fd then map null else do
  ff ← fdget fd
  if ff == null then pure (refused Errno.ebadf) else do
    f ← get_fd_file ff
    if f.ops.file then map (filefile f.dev) else pure (refused Errno.eacces)

unfoldable pub procmapany : ℕ → ℕ → ℕ → ℤ → ℤ → Cmd Mapped
procmapany size prot flags fd offset = map_file fd λ hf. do
  addr ← as_mapany size prot flags hf offset
  pure (if addr == failed then refused Errno.einval else at addr)

unfoldable pub procmapat : ℕ → ℕ → ℕ → ℕ → ℤ → ℤ → Cmd Mapped
procmapat start size prot flags fd offset w =
    map_file fd
      (λ hf. do
        addr ← as_mapat w.proc.p_as start size prot flags hf offset
        pure (if addr == failed then refused Errno.einval else at start))
      w

unfoldable pub procunmap : ℕ → ℕ → Cmd ℤ
procunmap start size w = as_munmap w.proc.p_as start size w
