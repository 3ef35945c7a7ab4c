-- ===== src/Syscalls/Edges.antt =====
-- Mappings at the edge: no room left, and a range that ends where the space does.
use libtux.Base.{ℕ, ◌+◌, ◌≤◌, ◌<◌, ◌≡◌, ◌≢◌, ◌∷◌, true, false, arith, ℤ, neg, is_neg, if◌then◌else◌}
use libtux.World.{Call, World, ok}
use libtux.Types.{has, not32}
use libtux.Types.Map
use libtux.Align.{word_mod, ceilp}
use libtux.AddrSpace.{inside, as_munmap, as_mapany}
use libtux.AddrSpace.{as_validptr}
use libtux.AddrSpace.Access.{procaddr}
use libtux.Process.{map_file, procmapany, procunmap}
use libtux.Syscalls.Mem.{sys_mmap, sys_munmap, legal_flags}

-- A range that ends where the space ends passes the assertion of lfi_as_mapat, but lfi_as_munmap
-- refuses it: what was mapped there cannot be unmapped.
sys_munmap_edge :
    (w : World) (addr size : ℕ)
    → w.proc.p_as.minaddr ≤ addr
    → addr + size ≡ w.proc.p_as.maxaddr
    → w.proc.p_as.maxaddr < word_mod
    → (inside w.proc.p_as addr size ≡ true) × (sys_munmap addr size w ≡ ok (neg 1) w)
unfolding sys_munmap procunmap as_munmap procaddr as_validptr
sys_munmap_edge w addr size low high small = (ground arith, ground arith)

abbrev pub asked : World → Call → World
asked w c =
    let a = w.oracle w.log c in
    record w { log = c ∷ w.log; errno = if is_neg a.ret then a.errno else w.errno }

-- An anonymous mapping that libmmap has no room for is answered by the address 0, as if it had been
-- made, and nothing is mapped.
pub sys_mmap_no_room :
    (w : World) (addrup length prot flags : ℕ) (off : ℤ)
    → length ≢ 0
    → has flags (not32 legal_flags) ≡ false
    → has flags Map.fixed ≡ false
    → is_neg
        (w.oracle w.log (Call.mm_mapany (ceilp length w.proc.tux.opts.pagesize) prot flags)).ret
      ≡ true
    → sys_mmap addrup length prot flags (neg 1) off w
      ≡ ok 0 (asked w (Call.mm_mapany (ceilp length w.proc.tux.opts.pagesize) prot flags))
unfolding sys_mmap procmapany map_file as_mapany
sys_mmap_no_room w addrup length prot flags off n legal loose failed =
    ground (arith, n, legal, loose, failed)
