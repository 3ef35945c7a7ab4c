-- ===== src/Lib.antt =====
-- libtux runs Linux programs inside of another program. A guest's system call comes to a handler,
-- which checks the guest's pointers against the address space, finds the file behind a descriptor
-- in the process's table, and calls the host backend, which calls the kernel. The address space is
-- kept by libmmap, the host's mappings follow it.
--
-- Which file models what (paths from the repository's root):
--   Base, Base/*         numbers, arrays and the lemmas on them that the rest shares
--   World, World/*       the state: struct HostFile (src/host/posix/file.h), struct File
--                        (src/file.h), struct FDFile, struct TuxProc with its table and working
--                        directory laid flat (src/proc.h), struct Tux (src/engine.h)
--   Types, Types/*       the constants of src/types.h and src/include/lfi.h
--   Host, Host/*         src/host.h, src/host/error.h, src/host/posix/file.c, and src/host/linux
--                        for what a Linux host adds: host_read is host_read, and so on. Host/Posix
--                        has what another host uses instead: src/host/posix/futex.c with its
--                        lists, src/host/posix/dir.c, and the short files beside them
--   File                 src/file.c: filenew, filefnew, and the operations of a file
--   Fd, Fd/*             src/fd.c: fdalloc, fdassign, fdget, fdremove, fdrelease, fdclear, fdinit.
--                        Fd/Refs says what right reference counts are, Fd/View forgets FDFiles
--                        and leaves the host's descriptor behind each of the guest's
--   Align                src/align.h: truncp and ceilp
--   AddrSpace, AddrSpace/*  src/pal/vm.c (lfi_as_mapat is as_mapat, and so on); AddrSpace/Access
--                        has procaddr, procbuf, procbufalign, procpath of src/syscalls/syscalls.h
--   Elf, Elf/*           src/elfload.h, src/elfload.c, src/buf.h and src/buf.c: Elf has the headers
--                        and the checks of a segment, Elf/Buf bufread and bufreadfile, Elf/Load
--                        load, Elf/Program lfi_proc_loadelf, elfload and elfinterp
--   Context              src/pal/platform.c and lfi_ctx_new of src/pal/ctx.c
--   Machine, Machine/*   the registers: an interface of what src/arch and src/pal/arch offer, with its
--                        laws, filled by Machine/X64 and Machine/Arm64; Machine/Gate has lfi_ctx_run,
--                        lfi_ctx_exit and the entries from the guest, Machine/Runs its threads
--   Threads, Threads/*   src/syscalls/sys_thread.c, src/syscalls/sys_proc.c, procnewthread of
--                        src/proc.c, over src/host/linux/futex.c
--   Dispatch, Dispatch/* syshandle of src/sys.c (Dispatch/Handlers has the switch), arch_syshandle
--                        of src/arch/*/sys.c, and the numbers of src/arch/*/arch_sys.h;
--                        Dispatch/Served says which numbers have a case, Dispatch/Lives has a
--                        process as the calls that its threads make, one after another
--   Process, Process/*   src/proc.c: procmapany, procmapat, procunmap, stacksetup (Process/Stack),
--                        procnewfile with what it calls (Process/Create); Process/Begun says
--                        what procsetup leaves, Process/Born follows procnewfile as a whole
--   Syscalls, Syscalls/* the handlers: Syscalls/Mem is src/syscalls/sys_mem.c, Syscalls/File and
--                        below src/syscalls/sys_file.c, Syscalls/Cwd src/syscalls/sys_cwd.c, and
--                        Syscalls/Info the calls that only ask. A handler keeps its C name
--   Engine, Engine/*     lfi_tux_new of src/tux.c, and the state that a process starts in
--   Perf, Perf/*         src/perf.c as it is built with libelf, whose calls are a record that it takes
--   Runner, Runner/*     tools/lfi_run.c; argp_parse and the run of the guest are arguments
--   Guest, Guest/*       a guest as a sequence of calls on files, directories and mappings:
--                        the arguments that src/sys.c takes from registers are given as they are;
--                        Guest/Calm has what the other calls keep
--   Tests, Tests/*       runs at a process with four open files
--
-- The state is passed explicitly: a command takes a World and returns a value and a World, or
-- `aborted` for a failed assertion, or `fault` for a pointer that leads nowhere. What is not in
-- the repository is asked through World's `oracle`: the kernel, malloc, libmmap, boxmap, cwalk
-- and the embedder's fs.open may each answer as they like, depending on all that was asked
-- before. An address that malloc gives is one that nothing uses. The host's objects (HostFile,
-- FDFile) are kept apart from the bytes of memory: that a buffer which begins in the guest's
-- space may reach beyond it is not seen. Mutexes are left out, but for one that fdrelease unlocks
-- in an FDFile that it has freed: World's `stale` lists those. What a mapping does to the bytes
-- and to the access of its pages is the kernel's and not modelled: a range that is mapped over
-- keeps its bytes here.
--
-- A register and an lfiptr_t are numbers below 2 ^ 64, with their sums and differences taken modulo
-- that; a signed number is an integer; a set of flags is its bit pattern. Where the code takes a
-- lock, uses nothing that another thread changes meanwhile, and gives it back, that is one step.
-- No theorem needs fuel: fdalloc and fdclear run over the table's 128 slots, a vector of buffers
-- over its count, strnlen over TUX_PATH_MAX.
--
-- The loops over program headers run over the list that was read. TUX_SANITIZE_CODE and
-- CONFIG_THREADS are arguments; the build has assertions on. A thread is the one that calls, and
-- clone adds another to a list; in Dispatch/Lives any thread makes the next call, each call as one
-- step, and Fd/Race lets the steps of two calls alternate. What overlapping calls may do else is not
-- modelled: fdget takes no reference, so that a close may free the FDFile that another call uses.
--
-- The guest's own instructions are not modelled: between two calls a thread of Machine/Runs may put
-- anything in any register but the two reserved ones. What the kernel and the C compiler keep of the
-- registers over a handler is a hypothesis.
--
-- Not modelled: logging (src/print.h, src/syscalls/strace.c). The loader asks for the map of
-- src/perf.c through the oracle.
pub mod Base
pub mod World
pub mod Types
pub mod Host
pub mod Machine
pub mod File
pub mod Fd
pub mod Align
pub mod AddrSpace
pub mod Process
pub mod Syscalls
pub mod Guest
pub mod Elf
pub mod Context
pub mod Threads
pub mod Dispatch
pub mod Engine
pub mod Perf
pub mod Runner
pub mod Tests
