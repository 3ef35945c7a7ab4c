-- ===== src/Tests/Opens.antt =====
-- Files opened and closed.
use libtux.Base.{refl, inl, pos, arith}
use libtux.World.Total.{Holds}
use libtux.Types.{at_fdcwd}
use libtux.Syscalls.File.Open.{sys_openat}
use libtux.Syscalls.File.Data.{sys_close}
use libtux.Syscalls.File.Opened.{OpenResult, sys_openat-OpenResult}
use libtux.Syscalls.File.Closed.{CloseResult, sys_close-CloseResult}
use libtux.Syscalls.Cwd.{sys_chdir, sys_fchdir}
use libtux.Syscalls.Cwd.Leave.{HasCwd}
use libtux.Syscalls.Cwd.Change.{ChdirResult, sys_chdir-ChdirResult}
use libtux.Syscalls.Cwd.Fchdir.{FchdirResult, sys_fchdir-FchdirResult}
use libtux.Tests.Demo.{demo, demo-IsSound, heap}

sys_openat-OpenResult_example :
    Holds (OpenResult demo at_fdcwd heap 0 0) (sys_openat at_fdcwd heap 0 0 demo)
sys_openat-OpenResult_example =
    sys_openat-OpenResult at_fdcwd heap 0 0 demo demo-IsSound (inl refl) (inl refl)

sys_close-CloseResult_example : Holds (CloseResult demo (pos 3)) (sys_close (pos 3) demo)
sys_close-CloseResult_example = sys_close-CloseResult (pos 3) demo demo-IsSound

demo-HasCwd : HasCwd demo
demo-HasCwd = record { held_by = λ f e. ground arith; own = λ e. inl refl }

sys_chdir-ChdirResult_example : Holds (ChdirResult demo heap) (sys_chdir heap demo)
sys_chdir-ChdirResult_example = sys_chdir-ChdirResult demo demo-IsSound demo-HasCwd heap

sys_fchdir-FchdirResult_example : Holds (FchdirResult demo (pos 3)) (sys_fchdir (pos 3) demo)
sys_fchdir-FchdirResult_example = sys_fchdir-FchdirResult (pos 3) demo demo-IsSound demo-HasCwd
