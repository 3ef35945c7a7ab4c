-- ===== src/Tests/Setups.antt =====
-- A process from a file that is its own dynamic linker, with two arguments.
use libtux.Base.{◌+◌, ◌-◌, ◌^◌, ◌≡◌, refl, false, some}
use libtux.Elf.Program.{LoadOpts, elfload, lfi_proc_loadelf, load_interp, perf_notes, report}
use libtux.World.Fields.{fields}
use libtux.Align.{truncp, ceilp}
use libtux.Host.Memory.{host_mmap, host_mprotect}
use libtux.Host.Flags.{mmapprot, mmapflags}
use libtux.Host.{checked, malloc}
use libtux.AddrSpace.{as_mapat, as_mprotect, asmap, cbunmap, map_or_undo, as_toptr}
use libtux.Elf.{file_header, prog_header, prog_headers, segment, elfcheck, pflags}
use libtux.Elf.Buf.{bufget, bufread, read_count}
use libtux.Elf.Load.{
  load, load_with, load_loop, place, advance, bufreadelfseg, sanitize, read_header,
  read_prog_headers,
}
use libtux.Process.Stack.{stacksetup, string_loop, pointer_loop, store_words, finish_stack, word_at}
use libtux.Process.Create.{procsetup}
use libtux.Process.Begun.{Begun}
use libtux.Tests.Demo.{demo_space}
use libtux.Tests.Programs.{returned, with_image, file}
use libtux.Tests.Stacks.{arguments}

abbrev setup_opts : LoadOpts
setup_opts = record { stacksize = 2097152; pagesize = 2 ^ 12; perf = false }

-- It begins at the entry of the linker, two blocks below the top of the stack.
begins :
    returned (procsetup false file file arguments with_image)
    ≡ some (some (record { pc = demo_space.minaddr + 4096 + 16; sp = demo_space.maxaddr - 8192 }))
unfolding procsetup elfload lfi_proc_loadelf load_interp perf_notes report stacksetup string_loop
    pointer_loop store_words finish_stack word_at as_toptr load load_with load_loop place advance
    bufreadelfseg sanitize read_header read_prog_headers bufget bufread read_count fields
    file_header prog_header prog_headers segment elfcheck pflags as_mapat as_mprotect asmap cbunmap
    map_or_undo host_mmap host_mprotect mmapprot mmapflags checked malloc truncp ceilp
begins = refl
