-- ===== src/Tests/Births.antt =====
-- A process of an engine that has just been made.
use libtux.Base.{List, Option, some, Bool, true, pos, ◌^◌, false, []}
use libtux.World.{Call, Answer, World, Run, ok}
use libtux.AddrSpace.{PlatOptions}
use libtux.Elf.Program.{LoadOpts}
use libtux.Engine.Start.{engine, ready}
use libtux.Process.Create.{Entry}
use libtux.Process.Born.{Born}
use libtux.Process.Create.{procnewfile}
use libtux.Dispatch.Handlers.{Setup, Args}
use libtux.Dispatch.Lives.{Lives}
use libtux.Tests.Demo.{oracle, answer}
use libtux.Tests.Starts.{blank, options}
use libtux.Tests.Programs.{with_image, file}
use libtux.Tests.Stacks.{arguments}

-- A host whose spaces begin at 4 GiB.
abbrev spaces : List Call → Call → Answer
spaces log (Call.boxmap_addspace n) = answer (pos 4294967296) 0 []
spaces log (Call.mm_init a n page) = answer (pos 1) 0 []
spaces log c = oracle log c

abbrev first : World
first = record blank { oracle = spaces; mem = with_image.mem }

abbrev plat : PlatOptions
plat = record { pagesize = 4096; vmsize = 4294967296; sysexternal = false }

abbrev birth_opts : LoadOpts
birth_opts = record { stacksize = 2097152; pagesize = 2 ^ 12; perf = false }

abbrev born : Run (Option Entry)
born = procnewfile plat false (engine first 20 21 22 options) file arguments (ready first 20 21 22)

abbrev is_some : Run (Option Entry) → Bool
is_some (ok (some e) v) = true
is_some r = false

abbrev entry_of : Run (Option Entry) → Entry
entry_of (ok (some e) v) = e
entry_of r = record { pc = 0; sp = 0 }

abbrev world_of : Run (Option Entry) → World
world_of (ok (some e) v) = v
world_of r = first

-- getpid, and then a read from any descriptor.
abbrev setup : Setup
setup = record { threads = true; plat = plat; scratch = 0 }

abbrev reading : Args
reading = record { a0 = 7; a1 = 4294967296; a2 = 100; a3 = 0; a4 = 0; a5 = 0 }
