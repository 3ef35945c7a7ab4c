-- ===== src/Tests/Calls.antt =====
-- A sequence of calls.
use libtux.Base.{◌≡◌, ◌-◌, ◌^◌, true, false, refl, inl, pos, arith}
use libtux.World.{ok}
use libtux.Types.{err, Errno}
use libtux.Fd.{fdget, fdhas_x}
use libtux.Syscalls.{with_file}
use libtux.Syscalls.File.Data.{sys_write}
use libtux.Guest.{Request, handle}
use libtux.Guest.Good.{Good}
use libtux.Guest.Safe.{Step, Reaches, Reaches-Good}
use libtux.Dispatch.Handlers.{Setup, Args}
use libtux.Dispatch.Lives.{Lives}
use libtux.Tests.Demo.{demo, demo-IsSound, heap}

pub demo-Good : Good demo
demo-Good = record {
  sound = demo-IsSound;
  cwd = record { held_by = λ f e. ground arith; own = λ e. inl refl };
  no_opener = refl;
}

-- A write to a descriptor that is not open.
refused : handle (Request.write (pos 9) heap 2) demo ≡ ok (err Errno.ebadf) demo
unfolding sys_write with_file fdget fdhas_x
refused = refl

demo-Reaches : Reaches demo demo
demo-Reaches =
    Reaches.next Reaches.here
      (Step.call (Request.write (pos 9) heap 2) (err Errno.ebadf) refused (ground arith))

Reaches-Good_here : Good demo
Reaches-Good_here = Reaches-Good {w = demo} {v = demo} demo-Good demo-Reaches

-- write(9, heap, 2) by its number on x64, then an open.
abbrev setup : Setup
setup = record {
  threads = true;
  plat = record { pagesize = 4096; vmsize = 4294967296; sysexternal = false };
  scratch = 0;
}

abbrev writing : Args
writing = record { a0 = 9; a1 = heap; a2 = 2; a3 = 0; a4 = 0; a5 = 0 }

abbrev opening : Args
opening = record { a0 = 2 ^ 64 - 100; a1 = heap; a2 = 0; a3 = 0; a4 = 0; a5 = 0 }
