-- ===== src/Dispatch/Number/Arm64.antt =====
-- src/arch/arm64/arch_sys.h
mod High
use libtux.Base.{ℕ, List, [], ◌∷◌, ◌++◌}
use libtux.Dispatch.Number.{Name}
use libtux.Dispatch.Number.Arm64.High.{high}

-- The numbers of the calls, in their order: the lower half.
abbrev pub low : List (ℕ × Name)
low =
    (0, Name.nr_io_setup)
    ∷ (1, Name.nr_io_destroy)
    ∷ (2, Name.nr_io_submit)
    ∷ (3, Name.nr_io_cancel)
    ∷ (4, Name.nr_io_getevents)
    ∷ (5, Name.nr_setxattr)
    ∷ (6, Name.nr_lsetxattr)
    ∷ (7, Name.nr_fsetxattr)
    ∷ (8, Name.nr_getxattr)
    ∷ (9, Name.nr_lgetxattr)
    ∷ (10, Name.nr_fgetxattr)
    ∷ (11, Name.nr_listxattr)
    ∷ (12, Name.nr_llistxattr)
    ∷ (13, Name.nr_flistxattr)
    ∷ (14, Name.nr_removexattr)
    ∷ (15, Name.nr_lremovexattr)
    ∷ (16, Name.nr_fremovexattr)
    ∷ (17, Name.nr_getcwd)
    ∷ (18, Name.nr_lookup_dcookie)
    ∷ (19, Name.nr_eventfd2)
    ∷ (20, Name.nr_epoll_create1)
    ∷ (21, Name.nr_epoll_ctl)
    ∷ (22, Name.nr_epoll_pwait)
    ∷ (23, Name.nr_dup)
    ∷ (24, Name.nr_dup3)
    ∷ (25, Name.nr_fcntl)
    ∷ (26, Name.nr_inotify_init1)
    ∷ (27, Name.nr_inotify_add_watch)
    ∷ (28, Name.nr_inotify_rm_watch)
    ∷ (29, Name.nr_ioctl)
    ∷ (30, Name.nr_ioprio_set)
    ∷ (31, Name.nr_ioprio_get)
    ∷ (32, Name.nr_flock)
    ∷ (33, Name.nr_mknodat)
    ∷ (34, Name.nr_mkdirat)
    ∷ (35, Name.nr_unlinkat)
    ∷ (36, Name.nr_symlinkat)
    ∷ (37, Name.nr_linkat)
    ∷ (38, Name.nr_renameat)
    ∷ (39, Name.nr_umount2)
    ∷ (40, Name.nr_mount)
    ∷ (41, Name.nr_pivot_root)
    ∷ (42, Name.nr_nfsservctl)
    ∷ (43, Name.nr_statfs)
    ∷ (44, Name.nr_fstatfs)
    ∷ (45, Name.nr_truncate)
    ∷ (46, Name.nr_ftruncate)
    ∷ (47, Name.nr_fallocate)
    ∷ (48, Name.nr_faccessat)
    ∷ (49, Name.nr_chdir)
    ∷ (50, Name.nr_fchdir)
    ∷ (51, Name.nr_chroot)
    ∷ (52, Name.nr_fchmod)
    ∷ (53, Name.nr_fchmodat)
    ∷ (54, Name.nr_fchownat)
    ∷ (55, Name.nr_fchown)
    ∷ (56, Name.nr_openat)
    ∷ (57, Name.nr_close)
    ∷ (58, Name.nr_vhangup)
    ∷ (59, Name.nr_pipe2)
    ∷ (60, Name.nr_quotactl)
    ∷ (61, Name.nr_getdents64)
    ∷ (62, Name.nr_lseek)
    ∷ (63, Name.nr_read)
    ∷ (64, Name.nr_write)
    ∷ (65, Name.nr_readv)
    ∷ (66, Name.nr_writev)
    ∷ (67, Name.nr_pread64)
    ∷ (68, Name.nr_pwrite64)
    ∷ (69, Name.nr_preadv)
    ∷ (70, Name.nr_pwritev)
    ∷ (71, Name.nr_sendfile)
    ∷ (72, Name.nr_pselect6)
    ∷ (73, Name.nr_ppoll)
    ∷ (74, Name.nr_signalfd4)
    ∷ (75, Name.nr_vmsplice)
    ∷ (76, Name.nr_splice)
    ∷ (77, Name.nr_tee)
    ∷ (78, Name.nr_readlinkat)
    ∷ (79, Name.nr_newfstatat)
    ∷ (80, Name.nr_fstat)
    ∷ (81, Name.nr_sync)
    ∷ (82, Name.nr_fsync)
    ∷ (83, Name.nr_fdatasync)
    ∷ (84, Name.nr_sync_file_range)
    ∷ (85, Name.nr_timerfd_create)
    ∷ (86, Name.nr_timerfd_settime)
    ∷ (87, Name.nr_timerfd_gettime)
    ∷ (88, Name.nr_utimensat)
    ∷ (89, Name.nr_acct)
    ∷ (90, Name.nr_capget)
    ∷ (91, Name.nr_capset)
    ∷ (92, Name.nr_personality)
    ∷ (93, Name.nr_exit)
    ∷ (94, Name.nr_exit_group)
    ∷ (95, Name.nr_waitid)
    ∷ (96, Name.nr_set_tid_address)
    ∷ (97, Name.nr_unshare)
    ∷ (98, Name.nr_futex)
    ∷ (99, Name.nr_set_robust_list)
    ∷ (100, Name.nr_get_robust_list)
    ∷ (101, Name.nr_nanosleep)
    ∷ (102, Name.nr_getitimer)
    ∷ (103, Name.nr_setitimer)
    ∷ (104, Name.nr_kexec_load)
    ∷ (105, Name.nr_init_module)
    ∷ (106, Name.nr_delete_module)
    ∷ (107, Name.nr_timer_create)
    ∷ (108, Name.nr_timer_gettime)
    ∷ (109, Name.nr_timer_getoverrun)
    ∷ (110, Name.nr_timer_settime)
    ∷ (111, Name.nr_timer_delete)
    ∷ (112, Name.nr_clock_settime)
    ∷ (113, Name.nr_clock_gettime)
    ∷ (114, Name.nr_clock_getres)
    ∷ (115, Name.nr_clock_nanosleep)
    ∷ (116, Name.nr_syslog)
    ∷ (117, Name.nr_ptrace)
    ∷ (118, Name.nr_sched_setparam)
    ∷ (119, Name.nr_sched_setscheduler)
    ∷ (120, Name.nr_sched_getscheduler)
    ∷ (121, Name.nr_sched_getparam)
    ∷ (122, Name.nr_sched_setaffinity)
    ∷ (123, Name.nr_sched_getaffinity)
    ∷ (124, Name.nr_sched_yield)
    ∷ (125, Name.nr_sched_get_priority_max)
    ∷ (126, Name.nr_sched_get_priority_min)
    ∷ (127, Name.nr_sched_rr_get_interval)
    ∷ (128, Name.nr_restart_syscall)
    ∷ (129, Name.nr_kill)
    ∷ (130, Name.nr_tkill)
    ∷ (131, Name.nr_tgkill)
    ∷ (132, Name.nr_sigaltstack)
    ∷ (133, Name.nr_rt_sigsuspend)
    ∷ (134, Name.nr_rt_sigaction)
    ∷ (135, Name.nr_rt_sigprocmask)
    ∷ (136, Name.nr_rt_sigpending)
    ∷ (137, Name.nr_rt_sigtimedwait)
    ∷ (138, Name.nr_rt_sigqueueinfo)
    ∷ (139, Name.nr_rt_sigreturn)
    ∷ (140, Name.nr_setpriority)
    ∷ (141, Name.nr_getpriority)
    ∷ (142, Name.nr_reboot)
    ∷ (143, Name.nr_setregid)
    ∷ (144, Name.nr_setgid)
    ∷ (145, Name.nr_setreuid)
    ∷ (146, Name.nr_setuid)
    ∷ (147, Name.nr_setresuid)
    ∷ (148, Name.nr_getresuid)
    ∷ (149, Name.nr_setresgid)
    ∷ (150, Name.nr_getresgid)
    ∷ (151, Name.nr_setfsuid)
    ∷ (152, Name.nr_setfsgid)
    ∷ []

abbrev pub table : List (ℕ × Name)
table = low ++ high
