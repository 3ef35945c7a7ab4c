-- ===== src/Host/Stat.antt =====
-- File status: copystat, host_fstatat and host_isdir of src/host/posix/file.c. `struct Stat` is laid
-- out as in src/arch/x64/arch_types.h.
use libtux.Base.{
  ℕ, ◌+◌, ◌/◌, ◌%◌, ◌==◌, Bool, false, List, [], ◌∷◌, ℤ, pos, is_neg, int_eq, if◌then◌else◌,
}
use libtux.World.{Ptr, Call, KStat, FilePath, Cmd, ◌>>=◌, ◌>>◌, pure, ask, modify, assert}
use libtux.World.Memory.{copy_to, le_bytes}
use libtux.Types.{at_empty_path}
use libtux.Host.{checked, host_fd, dir_fd}

-- sizeof(struct Stat), alignof(struct Stat)
abbrev pub stat_size : ℕ
stat_size = 144

abbrev pub stat_align : ℕ
stat_align = 8

-- One field: its offset, its width and its value.
abbrev pub Field : Type 0
Field = ℕ × ℕ × ℕ

unfoldable pub stat_fields : KStat → List Field
stat_fields k =
    (0, 8, k.st_dev)
    ∷ (8, 8, k.st_ino)
    ∷ (16, 4, k.st_nlink)
    ∷ (20, 4, k.st_mode)
    ∷ (24, 4, k.st_uid)
    ∷ (28, 4, k.st_gid)
    ∷ (40, 8, k.st_rdev)
    ∷ (48, 8, k.st_size)
    ∷ (56, 8, k.st_blksize)
    ∷ (64, 8, k.st_blocks)
    ∷ (72, 8, k.st_atim.0)
    ∷ (80, 8, k.st_atim.1)
    ∷ (88, 8, k.st_mtim.0)
    ∷ (96, 8, k.st_mtim.1)
    ∷ (104, 8, k.st_ctim.0)
    ∷ (112, 8, k.st_ctim.1)
    ∷ []

unfoldable pub store_fields : (ℕ → ℕ) → Ptr → List Field → ℕ → ℕ
store_fields mem p [] = mem
store_fields mem p ((offset, width, v) ∷ fs) =
    store_fields (copy_to mem (p + offset) (le_bytes width v)) p fs

unfoldable pub copystat : Ptr → KStat → Cmd (Unit {0})
unfolding store_fields stat_fields
copystat p k = modify (λ w. record w { mem = store_fields w.mem p (stat_fields k) })

-- `flags` is AT_EMPTY_PATH, or 0.
unfoldable pub host_fstatat : Ptr → FilePath → Ptr → ℕ → Cmd ℤ
unfolding checked host_fd dir_fd copystat
host_fstatat file path stat flags = do
  call ←
      if flags == at_empty_path
      then (do pure (Call.fstat (← host_fd file)))
      else (do assert (flags == 0); pure (Call.fstatat (← dir_fd file) path))
  a ← ask call
  if is_neg a.ret then pure (checked a (pos 0)) else do copystat stat a.stat; pure (pos 0)

unfoldable pub host_fstat : Ptr → Ptr → Cmd ℤ
unfolding host_fstatat
host_fstat file stat = host_fstatat file [] stat at_empty_path

-- S_ISDIR: the file type bits 0xf000 are 0x4000.
unfoldable pub host_isdir : Ptr → Cmd Bool
unfolding host_fd
host_isdir file = do
  fd ← host_fd file
  a ← ask (Call.fstat fd)
  pure (if int_eq a.ret (pos 0) then a.stat.st_mode / 0x1000 % 16 == 4 else false)
