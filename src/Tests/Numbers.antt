-- ===== src/Tests/Numbers.antt =====
-- Calls by their numbers, and the calls on threads.
use libtux.Base.{ℕ, ◌≡◌, refl, true, false, [], ◌∷◌, arith, ◌⊎◌}
use libtux.World.{World, aborted, ◌>>◌}
use libtux.World.Memory.{copy_to}
use libtux.World.Total.{Holds}
use libtux.AddrSpace.{PlatOptions}
use libtux.Threads.{kept_flags, sys_set_tid_address, sys_exit, exits}
use libtux.Threads.Escape.{set_tid_address-exit}
use libtux.Threads.Spawn.{legal}
use libtux.Dispatch.Number.{Name}
use libtux.Dispatch.Arch.{x64, arch_syshandle}
use libtux.Dispatch.Handlers.{Args, Setup}
use libtux.Dispatch.Served.{is_among, served, Served, arch_syshandle-Served}
use libtux.Tests.Demo.{demo}

abbrev platform : PlatOptions
platform = record { pagesize = 4096; vmsize = 4294967296; sysexternal = false }

abbrev setup : Setup
setup = record { threads = true; plat = platform; scratch = 0 }

abbrev args : Args
args = record { a0 = 3; a1 = 4296015872; a2 = 2; a3 = 7; a4 = 8; a5 = 0 }

-- fork has the number 57 on x64, and getpid 172 on arm64.
arch_syshandle-Served_example :
    ((is_among 57 (served x64) ≡ true) × (name : Name) × Served setup args x64 57 name)
    ⊎ ((is_among 57 (served x64) ≡ false)
        × ((w : World) → arch_syshandle x64 setup 57 args w ≡ aborted))
arch_syshandle-Served_example = arch_syshandle-Served setup args x64 57

-- The flags of a thread of glibc.
abbrev thread_flags : ℕ
thread_flags = 0x3d0f00

thread_flags-legal : legal thread_flags ≡ true
unfolding kept_flags
thread_flags-legal = refl

-- Address 100 is not in the guest's space.
set_tid_address-exit_example :
    Holds
      (λ o v. (v.mem ≡ copy_to demo.mem 100 (0 ∷ 0 ∷ 0 ∷ 0 ∷ [])) × (o ≡ exits 5))
      ((do sys_set_tid_address 100; sys_exit true 5) demo)
set_tid_address-exit_example = set_tid_address-exit 100 5 demo (ground arith)
