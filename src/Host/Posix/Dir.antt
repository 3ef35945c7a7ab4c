-- ===== src/Host/Posix/Dir.antt =====
-- src/host/posix/dir.c: directory entries, from what readdir gives to the buffer of the guest.
pub mod Records
pub mod Walk
use libtux.Base.{
  ℕ, ◌+◌, ◌-◌, ◌^◌, List, [], ◌∷◌, ◌++◌, if◌then◌else◌, ltb, leb, length, take, replicate, ℤ, pos,
  is_neg,
}
use libtux.World.{Ptr, Call, Cmd, ◌>>=◌, ◌>>◌, pure, ask, modify}
use libtux.World.Memory.{copy_to}
use libtux.World.Fields.{encode}
use libtux.Align.{ceilp}
use libtux.Host.{host_fd, tuxerr}

-- `struct dirent` of the host, as far as it is read
pub record DirEntry : Type 0 where
  pub d_ino : ℕ
  pub d_type : ℕ
  pub d_name : List ℕ

-- The name that has room, with a NUL, in 256 bytes.
abbrev pub name_len : DirEntry → ℕ
name_len e = let len = length e.d_name in if leb 256 len then 255 else len

unfoldable pub reclen : DirEntry → ℕ
reclen e = ceilp (8 + 8 + 2 + 1 + name_len e + 1) 8

abbrev pub dirent_head : DirEntry → List (ℕ × ℕ)
dirent_head e = (8, e.d_ino) ∷ (8, 2 ^ 64 - 1) ∷ (2, reclen e) ∷ (1, e.d_type) ∷ []

-- A whole `struct Dirent`, of 280 bytes; what the name leaves over is zero.
unfoldable pub dirent_bytes : DirEntry → List ℕ
dirent_bytes e =
    encode (dirent_head e) ++ take (name_len e) e.d_name ++ replicate (261 - name_len e) 0

-- The loop over what readdir gives, from `written` on: how much was written, and the memory.
unfoldable pub getdents_loop : ℕ → Ptr → ℕ → List DirEntry → (ℕ → ℕ) → ℕ × (ℕ → ℕ)
getdents_loop count dirp written [] mem = (written, mem)
getdents_loop count dirp written (e ∷ es) mem =
    let rest =
      getdents_loop count dirp (written + reclen e) es
        (copy_to mem (dirp + written) (dirent_bytes e)) in
    if ltb written count then rest else (written, mem)

-- `entries` is what readdir gives before its NULL. The test of errno that follows the loop never
-- holds.
unfoldable pub host_getdents64 : Ptr → Ptr → ℕ → List DirEntry → Cmd ℤ
host_getdents64 file dirp count entries = do
  fd ← host_fd file
  dir ← ask (Call.fdopendir fd)
  if is_neg dir.ret then pure (tuxerr (pos dir.errno)) else λ w.
      (let (written, mem) = getdents_loop count dirp 0 entries w.mem in
          do modify (λ v. record v { mem = mem }); pure (pos written))
        w
