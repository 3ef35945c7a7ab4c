-- ===== src/Tests/Machines.antt =====
-- The first thread of a space at four GiB, which asks for its process number.
use libtux.Base.{ℕ, ◌+◌, ◌*◌, ◌^◌, ◌≡◌, refl, true, false, some, arith}
use libtux.World.{ok}
use libtux.Threads.{returns}
use libtux.Dispatch.Handlers.{Setup, common}
use libtux.Dispatch.Arch.{
  x64, arm64, lookup, decode, case_of, run_case, switch, syshandle, x64_case, x64_first,
  arch_syshandle,
}
use libtux.Machine.X64
use libtux.Machine.Arm64
use libtux.Machine.X64.Gate.{x64_call_lem, x64_clone_lem}
use libtux.Machine.Arm64.Gate.{arm64_call_lem, arm64_clone_lem}
use libtux.Machine.Gate.{
  fill, in_thread, Running, lfi_ctx_run, Next, saved_context, lfi_tux_syscall, lfi_syscall_entry,
  first_context, cloned_context,
}
use libtux.Machine.Runs.{Runs, IsConfined, Runs-Confined}
use libtux.Machine.Runs.Calls.{Follows, lfi_syscall_entry-Follows}
use libtux.Tests.Demo.{demo}

abbrev setup : Setup
setup = record {
  threads = true;
  plat = record { pagesize = 4096; vmsize = 4294967296; sysexternal = false };
  scratch = 0;
}

abbrev at : ℕ
at = 1 * 2 ^ 32

-- getpid has the number 39, and 7 is in r12.
abbrev at_call : X64.Registers
at_call = record X64.zeroed { rax = 39; rdi = 5; r11 = at + 4096; r12 = 7; r13 = at; r14 = at }

abbrev started : Running X64.operations
started =
    lfi_ctx_run X64.operations (first_context X64.operations 80 at at (at + 64) (at + 8192))
      X64.zeroed 50

abbrev calling : Running X64.operations
calling = record started { cpu = at_call }

calling-Runs : Runs X64.operations X64.laws at at calling
calling-Runs =
    Runs.works (Runs.begins 80 (at + 64) (at + 8192) 50 X64.zeroed) at_call
      (record { base_there = refl; sys_there = refl })

at_call-Keeps : X64.Keeps at_call at_call
at_call-Keeps = record { r12 = refl; r13 = refl; r14 = refl; r15 = refl; fs = refl; gs = refl }

getpid : arch_syshandle x64 setup 39 (X64.args at_call) demo ≡ ok (returns 0) demo
unfolding arch_syshandle x64_first x64_case syshandle switch decode lookup case_of common run_case
getpid = refl

Runs-Confined_example : IsConfined X64.operations X64.laws at at calling
Runs-Confined_example = Runs-Confined X64.operations X64.laws at at calling calling-Runs

lfi_syscall_entry-Follows_example :
    Follows X64.operations X64.laws at at calling
      (arch_syshandle x64 setup 39 (X64.args at_call) (in_thread X64.operations calling demo))
      (lfi_syscall_entry X64.operations
        (some (lfi_tux_syscall X64.operations setup))
        at_call
        calling
        demo)
lfi_syscall_entry-Follows_example =
    lfi_syscall_entry-Follows X64.operations X64.laws at at calling calling-Runs at_call
      at_call-Keeps 1 4096 refl refl (ground arith) (ground arith) setup demo

x64_call_lem_example :
    (u : Running X64.operations) × (lfi_syscall_entry X64.operations
        (some (lfi_tux_syscall X64.operations setup))
        at_call
        calling
        demo
      ≡ ok (Next.again u) demo)
    × (u.cpu ≡ record at_call { rax = 0; rcx = 0 })
unfolding lfi_ctx_run first_context fill
x64_call_lem_example = x64_call_lem calling at_call setup demo demo 0 at_call-Keeps getpid

-- The child has 0 where its parent has 7.
x64_clone_lem_example :
    (lfi_ctx_run X64.operations
      (cloned_context X64.operations (saved_context X64.operations calling) 90 at (at + 12288) 0)
      X64.zeroed
      60).cpu
    ≡ record at_call { rax = 0; rsp = at + 12288; r12 = 0; gs = at }
x64_clone_lem_example = x64_clone_lem at at calling 90 at (at + 12288) 0 60 X64.zeroed calling-Runs

-- getpid has the number 172.
abbrev arm_call : Arm64.Registers
arm_call = record Arm64.zeroed { x8 = 172; x19 = 7; x21 = at; x25 = at; x30 = at + 4096 }

abbrev arm_calling : Running Arm64.operations
arm_calling =
    record (lfi_ctx_run Arm64.operations
      (first_context Arm64.operations 80 at at (at + 64) (at + 8192)) Arm64.zeroed 50) {
        cpu = arm_call;
      }

arm_calling-Runs : Runs Arm64.operations Arm64.laws at at arm_calling
arm_calling-Runs =
    Runs.works (Runs.begins 80 (at + 64) (at + 8192) 50 Arm64.zeroed) arm_call
      (record { base_there = refl; sys_there = refl })

-- The child has 0 where its parent has 7.
arm64_clone_lem_example :
    (lfi_ctx_run Arm64.operations
      (cloned_context Arm64.operations
        (saved_context Arm64.operations arm_calling)
        90
        at
        (at + 12288)
        0)
      Arm64.zeroed
      60).cpu
    ≡ record arm_call { x0 = 0; sp = at + 12288; x19 = 0; vector = Arm64.restore_vector (λ i. 0) }
arm64_clone_lem_example =
    arm64_clone_lem at at arm_calling 90 at (at + 12288) 0 60 Arm64.zeroed arm_calling-Runs

arm_call-Keeps : Arm64.Keeps arm_call arm_call
arm_call-Keeps = record {
  x19 = refl;
  x20 = refl;
  x22 = refl;
  x23 = refl;
  x24 = refl;
  x25 = refl;
  x26 = refl;
  x27 = refl;
  x28 = refl;
  x29 = refl;
}

arm_getpid : arch_syshandle arm64 setup 172 (Arm64.args arm_call) demo ≡ ok (returns 0) demo
unfolding arch_syshandle syshandle switch decode lookup case_of common run_case
arm_getpid = refl

arm64_call_lem_example :
    (u : Running Arm64.operations) × (lfi_syscall_entry Arm64.operations
        (some (lfi_tux_syscall Arm64.operations setup))
        arm_call
        arm_calling
        demo
      ≡ ok (Next.again u) demo)
    × (u.cpu ≡ record arm_call { x0 = 0 })
unfolding lfi_ctx_run first_context fill
arm64_call_lem_example =
    arm64_call_lem at 1 4096 arm_calling arm_call setup demo demo 0 arm_calling-Runs refl
      (ground arith) (ground arith) arm_call-Keeps arm_getpid
