-- ===== src/Dispatch/Number/X64.antt =====
-- src/arch/x64/arch_sys.h
use libtux.Base.{ℕ, List, [], ◌∷◌}
use libtux.Dispatch.Number.{Name}

-- The numbers of the calls, in their order.
abbrev pub table : List (ℕ × Name)
table =
    (0, Name.nr_read)
    ∷ (1, Name.nr_write)
    ∷ (2, Name.nr_open)
    ∷ (3, Name.nr_close)
    ∷ (4, Name.nr_stat)
    ∷ (5, Name.nr_fstat)
    ∷ (6, Name.nr_lstat)
    ∷ (7, Name.nr_poll)
    ∷ (8, Name.nr_lseek)
    ∷ (9, Name.nr_mmap)
    ∷ (10, Name.nr_mprotect)
    ∷ (11, Name.nr_munmap)
    ∷ (12, Name.nr_brk)
    ∷ (13, Name.nr_rt_sigaction)
    ∷ (14, Name.nr_rt_sigprocmask)
    ∷ (15, Name.nr_rt_sigreturn)
    ∷ (16, Name.nr_ioctl)
    ∷ (17, Name.nr_pread64)
    ∷ (18, Name.nr_pwrite64)
    ∷ (19, Name.nr_readv)
    ∷ (20, Name.nr_writev)
    ∷ (21, Name.nr_access)
    ∷ (24, Name.nr_sched_yield)
    ∷ (25, Name.nr_mremap)
    ∷ (39, Name.nr_getpid)
    ∷ (41, Name.nr_socket)
    ∷ (56, Name.nr_clone)
    ∷ (57, Name.nr_fork)
    ∷ (58, Name.nr_vfork)
    ∷ (59, Name.nr_execve)
    ∷ (60, Name.nr_exit)
    ∷ (63, Name.nr_uname)
    ∷ (72, Name.nr_fcntl)
    ∷ (74, Name.nr_fsync)
    ∷ (76, Name.nr_truncate)
    ∷ (77, Name.nr_ftruncate)
    ∷ (79, Name.nr_getcwd)
    ∷ (80, Name.nr_chdir)
    ∷ (81, Name.nr_fchdir)
    ∷ (82, Name.nr_rename)
    ∷ (83, Name.nr_mkdir)
    ∷ (87, Name.nr_unlink)
    ∷ (89, Name.nr_readlink)
    ∷ (90, Name.nr_chmod)
    ∷ (91, Name.nr_fchmod)
    ∷ (92, Name.nr_chown)
    ∷ (93, Name.nr_fchown)
    ∷ (94, Name.nr_lchown)
    ∷ (97, Name.nr_getrlimit)
    ∷ (99, Name.nr_sysinfo)
    ∷ (127, Name.nr_rt_sigpending)
    ∷ (128, Name.nr_rt_sigtimedwait)
    ∷ (129, Name.nr_rt_sigqueueinfo)
    ∷ (130, Name.nr_rt_sigsuspend)
    ∷ (131, Name.nr_sigaltstack)
    ∷ (137, Name.nr_statfs)
    ∷ (157, Name.nr_prctl)
    ∷ (158, Name.nr_arch_prctl)
    ∷ (160, Name.nr_setrlimit)
    ∷ (186, Name.nr_gettid)
    ∷ (191, Name.nr_getxattr)
    ∷ (192, Name.nr_lgetxattr)
    ∷ (201, Name.nr_time)
    ∷ (202, Name.nr_futex)
    ∷ (203, Name.nr_sched_setaffinity)
    ∷ (204, Name.nr_sched_getaffinity)
    ∷ (217, Name.nr_getdents64)
    ∷ (218, Name.nr_set_tid_address)
    ∷ (228, Name.nr_clock_gettime)
    ∷ (231, Name.nr_exit_group)
    ∷ (257, Name.nr_openat)
    ∷ (258, Name.nr_mkdirat)
    ∷ (262, Name.nr_newfstatat)
    ∷ (263, Name.nr_unlinkat)
    ∷ (264, Name.nr_renameat)
    ∷ (267, Name.nr_readlinkat)
    ∷ (269, Name.nr_faccessat)
    ∷ (273, Name.nr_set_robust_list)
    ∷ (280, Name.nr_utimensat)
    ∷ (302, Name.nr_prlimit64)
    ∷ (318, Name.nr_getrandom)
    ∷ (324, Name.nr_membarrier)
    ∷ (332, Name.nr_statx)
    ∷ (334, Name.nr_rseq)
    ∷ []
