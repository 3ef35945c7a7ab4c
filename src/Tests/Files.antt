-- ===== src/Tests/Files.antt =====
-- The descriptors of the process: closed, given out, and used.
use libtux.Base.{ℕ, ◌<◌, ◌≡◌, ◌≢◌, true, none, pos, get_or, arith}
use libtux.World.{Ptr, null, World, ok}
use libtux.Fd.{nofile, fdremove, fdrelease, fdclear}
use libtux.Fd.Refs.{IsSound, Counts, holders, fewer}
use libtux.Fd.Release.{Releases, fdrelease-Counts}
use libtux.Fd.Table.{cleared, fdremove-IsSound}
use libtux.Fd.Clear.{fdclear-IsSound}
use libtux.Syscalls.File.Data.{sys_write, sys_read}
use libtux.Syscalls.File.Refine.{write_spec, read_spec, sys_write_lem, sys_read_lem}
use libtux.Tests.Demo.{demo, demo-IsSound, heap}

fdremove-IsSound_example :
    (v : World) × (fdremove (pos 3) demo ≡ ok true (cleared 3 v))
    × IsSound (cleared 3 v)
    × Releases
        (holders demo.proc (get_or demo.proc.files 3 null))
        (get_or demo.proc.files 3 null)
        demo
        v
fdremove-IsSound_example = fdremove-IsSound 3 demo demo-IsSound (ground arith) (ground arith)

fdrelease-Counts_example :
    (v : World) × (fdrelease 12 demo ≡ ok tt v)
    × Counts (fewer (holders demo.proc) 12) v
    × Releases (holders demo.proc 12) 12 demo v
fdrelease-Counts_example =
    fdrelease-Counts {h = holders demo.proc} 12 demo demo-IsSound.refs (ground arith) (ground arith)
      (ground arith)

fdclear-IsSound_example :
    (v : World) × (fdclear demo ≡ ok tt v)
    × IsSound v
    × ((j : ℕ) → j < nofile → get_or v.proc.files j null ≡ null)
    × ((p : Ptr) → p ≢ 10 → p ≢ 11 → p ≢ 12 → p ≢ null → v.fd_files p ≡ none)
fdclear-IsSound_example = fdclear-IsSound demo demo-IsSound

sys_write_lem_example : sys_write (pos 3) heap 2 demo ≡ write_spec demo (pos 3) heap 2
sys_write_lem_example = sys_write_lem demo demo-IsSound (pos 3) heap 2

sys_read_lem_example : sys_read (pos 0) heap 2 demo ≡ read_spec demo (pos 0) heap 2
sys_read_lem_example = sys_read_lem demo demo-IsSound (pos 0) heap 2
