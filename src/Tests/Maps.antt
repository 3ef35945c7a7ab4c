-- ===== src/Tests/Maps.antt =====
-- Mappings at the edge of the space of the process.
use libtux.Base.{◌≡◌, refl, [], pos, neg, arith}
use libtux.World.{Call, World, ok}
use libtux.Syscalls.Mem.{sys_mmap}
use libtux.Syscalls.Edges.{asked, sys_mmap_no_room}
use libtux.Align.{ceilp}
use libtux.Tests.Demo.{answer, demo}

-- libmmap is full.
abbrev full : World
full = record demo { oracle = λ log c. answer (neg 1) 12 [] }

no_room :
    sys_mmap 0 4096 3 34 (neg 1) (pos 0) full
    ≡ ok 0 (asked full (Call.mm_mapany (ceilp 4096 4096) 3 34))
no_room = sys_mmap_no_room full 0 4096 3 34 (pos 0) (ground arith) refl refl refl
