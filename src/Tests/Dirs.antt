-- ===== src/Tests/Dirs.antt =====
-- A directory of a posix host with two entries, in a buffer that has room for both.
use libtux.Base.{◌+◌, ◌≡◌, refl, [], ◌∷◌, List, All, pos, arith}
use libtux.World.Total.{Holds}
use libtux.Align.{ceilp}
use libtux.Host.Posix.Dir.{DirEntry, reclen, getdents_loop, host_getdents64}
use libtux.Host.Posix.Dir.Walk.{IsEntry, IsListed, host_getdents64-IsListed, getdents_overruns}
use libtux.Tests.Demo.{demo, heap}

-- "a" and "bc"
abbrev entries : List DirEntry
entries =
    record { d_ino = 7; d_type = 8; d_name = 97 ∷ [] }
    ∷ record { d_ino = 9; d_type = 4; d_name = 98 ∷ 99 ∷ [] }
    ∷ []

entries-IsEntry : All IsEntry entries
entries-IsEntry =
    let one : IsEntry (record { d_ino = 7; d_type = 8; d_name = 97 ∷ [] }) = record {
      ino = ground arith;
      type = ground arith;
      name = ground arith;
    } in
    let two : IsEntry (record { d_ino = 9; d_type = 4; d_name = 98 ∷ 99 ∷ [] }) = record {
      ino = ground arith;
      type = ground arith;
      name = ground arith;
    } in
    (one, (two, tt))

host_getdents64-IsListed_example :
    Holds
      (IsListed 20 heap 1024 entries demo (record { fd = pos 0 }) refl refl)
      (host_getdents64 20 heap 1024 entries demo)
host_getdents64-IsListed_example =
    host_getdents64-IsListed 20 heap 1024 entries demo (record { fd = pos 0 }) refl refl
      entries-IsEntry

getdents_overruns_example :
    (getdents_loop 24 heap 0 (record { d_ino = 7; d_type = 8; d_name = 97 ∷ [] } ∷ []) demo.mem).1
      (heap + 279)
    ≡ 0
getdents_overruns_example =
    getdents_overruns 24 heap (record { d_ino = 7; d_type = 8; d_name = 97 ∷ [] }) demo.mem
      (ground arith) (ground arith)

-- Two records of 24 bytes.
both : (getdents_loop 1024 heap 0 entries demo.mem).0 ≡ 48
unfolding getdents_loop reclen ceilp
both = refl
