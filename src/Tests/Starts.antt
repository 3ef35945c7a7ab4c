-- ===== src/Tests/Starts.antt =====
-- An engine and a process that start.
use libtux.Base.{[], ◌≡◌, refl, none, some, false, pos, arith}
use libtux.World.{TuxOptions, World, ok, put}
use libtux.Fd.{fdinit}
use libtux.Fd.Init.{std_slots}
use libtux.Guest.Good.{Good}
use libtux.Engine.{tux_new}
use libtux.Engine.Start.{Blank, engine, ready, process, start-Good}
use libtux.Tests.Demo.{oracle, demo, demo_mem, demo_proc}

-- Only the three static HostFiles are there.
abbrev pub blank : World
blank = record {
  oracle = oracle;
  log = [];
  errno = 0;
  mem = demo_mem;
  next = 30;
  host_files =
      put
        (put (put (λ p. none) 20 (some (record { fd = pos 0 }))) 21 (some (record { fd = pos 1 })))
        22 (some (record { fd = pos 2 }));
  fd_files = λ p. none;
  stale = [];
  proc = demo_proc;
  thread = demo.thread;
  threads = [];
  next_tid = 10001;
}

blank-Blank : Blank blank 20 21 22
blank-Blank = record {
  no_files = λ p. refl;
  live = ground arith;
  apart = ground arith;
  unused = λ p le. ground arith;
  not_null = ground arith;
  memory = λ log n. refl;
}

abbrev pub options : TuxOptions
options = record { pagesize = 4096; pause_on_exit = false; perf = false; fs_open = false }

start-Good_example :
    (tux_new options 20 21 22 blank
      ≡ ok (some (engine blank 20 21 22 options)) (ready blank 20 21 22))
    × (v : World) × (fdinit (process blank 20 21 22 options demo_proc) ≡ ok tt v)
    × Good v
    × (v.proc ≡ std_slots (process blank 20 21 22 options demo_proc).proc)
start-Good_example = start-Good blank 20 21 22 options demo_proc blank-Blank refl
