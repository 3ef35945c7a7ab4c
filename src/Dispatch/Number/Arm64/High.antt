-- ===== src/Dispatch/Number/Arm64/High.antt =====
-- src/arch/arm64/arch_sys.h, the upper half
use libtux.Base.{ℕ, List, [], ◌∷◌}
use libtux.Dispatch.Number.{Name}

-- The numbers of the calls, in their order.
abbrev pub high : List (ℕ × Name)
high =
    (153, Name.nr_times)
    ∷ (154, Name.nr_setpgid)
    ∷ (155, Name.nr_getpgid)
    ∷ (156, Name.nr_getsid)
    ∷ (157, Name.nr_setsid)
    ∷ (158, Name.nr_getgroups)
    ∷ (159, Name.nr_setgroups)
    ∷ (160, Name.nr_uname)
    ∷ (161, Name.nr_sethostname)
    ∷ (162, Name.nr_setdomainname)
    ∷ (163, Name.nr_getrlimit)
    ∷ (164, Name.nr_setrlimit)
    ∷ (165, Name.nr_getrusage)
    ∷ (166, Name.nr_umask)
    ∷ (167, Name.nr_prctl)
    ∷ (168, Name.nr_getcpu)
    ∷ (169, Name.nr_gettimeofday)
    ∷ (170, Name.nr_settimeofday)
    ∷ (171, Name.nr_adjtimex)
    ∷ (172, Name.nr_getpid)
    ∷ (173, Name.nr_getppid)
    ∷ (174, Name.nr_getuid)
    ∷ (175, Name.nr_geteuid)
    ∷ (176, Name.nr_getgid)
    ∷ (177, Name.nr_getegid)
    ∷ (178, Name.nr_gettid)
    ∷ (179, Name.nr_sysinfo)
    ∷ (180, Name.nr_mq_open)
    ∷ (181, Name.nr_mq_unlink)
    ∷ (182, Name.nr_mq_timedsend)
    ∷ (183, Name.nr_mq_timedreceive)
    ∷ (184, Name.nr_mq_notify)
    ∷ (185, Name.nr_mq_getsetattr)
    ∷ (186, Name.nr_msgget)
    ∷ (187, Name.nr_msgctl)
    ∷ (188, Name.nr_msgrcv)
    ∷ (189, Name.nr_msgsnd)
    ∷ (190, Name.nr_semget)
    ∷ (191, Name.nr_semctl)
    ∷ (192, Name.nr_semtimedop)
    ∷ (193, Name.nr_semop)
    ∷ (194, Name.nr_shmget)
    ∷ (195, Name.nr_shmctl)
    ∷ (196, Name.nr_shmat)
    ∷ (197, Name.nr_shmdt)
    ∷ (198, Name.nr_socket)
    ∷ (199, Name.nr_socketpair)
    ∷ (200, Name.nr_bind)
    ∷ (201, Name.nr_listen)
    ∷ (202, Name.nr_accept)
    ∷ (203, Name.nr_connect)
    ∷ (204, Name.nr_getsockname)
    ∷ (205, Name.nr_getpeername)
    ∷ (206, Name.nr_sendto)
    ∷ (207, Name.nr_recvfrom)
    ∷ (208, Name.nr_setsockopt)
    ∷ (209, Name.nr_getsockopt)
    ∷ (210, Name.nr_shutdown)
    ∷ (211, Name.nr_sendmsg)
    ∷ (212, Name.nr_recvmsg)
    ∷ (213, Name.nr_readahead)
    ∷ (214, Name.nr_brk)
    ∷ (215, Name.nr_munmap)
    ∷ (216, Name.nr_mremap)
    ∷ (217, Name.nr_add_key)
    ∷ (218, Name.nr_request_key)
    ∷ (219, Name.nr_keyctl)
    ∷ (220, Name.nr_clone)
    ∷ (221, Name.nr_execve)
    ∷ (222, Name.nr_mmap)
    ∷ (223, Name.nr_fadvise64)
    ∷ (224, Name.nr_swapon)
    ∷ (225, Name.nr_swapoff)
    ∷ (226, Name.nr_mprotect)
    ∷ (227, Name.nr_msync)
    ∷ (228, Name.nr_mlock)
    ∷ (229, Name.nr_munlock)
    ∷ (230, Name.nr_mlockall)
    ∷ (231, Name.nr_munlockall)
    ∷ (232, Name.nr_mincore)
    ∷ (233, Name.nr_madvise)
    ∷ (234, Name.nr_remap_file_pages)
    ∷ (235, Name.nr_mbind)
    ∷ (236, Name.nr_get_mempolicy)
    ∷ (237, Name.nr_set_mempolicy)
    ∷ (238, Name.nr_migrate_pages)
    ∷ (239, Name.nr_move_pages)
    ∷ (240, Name.nr_rt_tgsigqueueinfo)
    ∷ (241, Name.nr_perf_event_open)
    ∷ (242, Name.nr_accept4)
    ∷ (243, Name.nr_recvmmsg)
    ∷ (260, Name.nr_wait4)
    ∷ (261, Name.nr_prlimit64)
    ∷ (262, Name.nr_fanotify_init)
    ∷ (263, Name.nr_fanotify_mark)
    ∷ (264, Name.nr_name_to_handle_at)
    ∷ (265, Name.nr_open_by_handle_at)
    ∷ (266, Name.nr_clock_adjtime)
    ∷ (267, Name.nr_syncfs)
    ∷ (268, Name.nr_setns)
    ∷ (269, Name.nr_sendmmsg)
    ∷ (270, Name.nr_process_vm_readv)
    ∷ (271, Name.nr_process_vm_writev)
    ∷ (272, Name.nr_kcmp)
    ∷ (273, Name.nr_finit_module)
    ∷ (274, Name.nr_sched_setattr)
    ∷ (275, Name.nr_sched_getattr)
    ∷ (276, Name.nr_renameat2)
    ∷ (277, Name.nr_seccomp)
    ∷ (278, Name.nr_getrandom)
    ∷ (279, Name.nr_memfd_create)
    ∷ (280, Name.nr_bpf)
    ∷ (281, Name.nr_execveat)
    ∷ (282, Name.nr_userfaultfd)
    ∷ (283, Name.nr_membarrier)
    ∷ (284, Name.nr_mlock2)
    ∷ (285, Name.nr_copy_file_range)
    ∷ (286, Name.nr_preadv2)
    ∷ (287, Name.nr_pwritev2)
    ∷ (288, Name.nr_pkey_mprotect)
    ∷ (289, Name.nr_pkey_alloc)
    ∷ (290, Name.nr_pkey_free)
    ∷ (291, Name.nr_statx)
    ∷ (292, Name.nr_io_pgetevents)
    ∷ (293, Name.nr_rseq)
    ∷ (294, Name.nr_kexec_file_load)
    ∷ (424, Name.nr_pidfd_send_signal)
    ∷ (425, Name.nr_io_uring_setup)
    ∷ (426, Name.nr_io_uring_enter)
    ∷ (427, Name.nr_io_uring_register)
    ∷ (428, Name.nr_open_tree)
    ∷ (429, Name.nr_move_mount)
    ∷ (430, Name.nr_fsopen)
    ∷ (431, Name.nr_fsconfig)
    ∷ (432, Name.nr_fsmount)
    ∷ (433, Name.nr_fspick)
    ∷ (434, Name.nr_pidfd_open)
    ∷ (435, Name.nr_clone3)
    ∷ (436, Name.nr_close_range)
    ∷ (437, Name.nr_openat2)
    ∷ (438, Name.nr_pidfd_getfd)
    ∷ (439, Name.nr_faccessat2)
    ∷ (440, Name.nr_process_madvise)
    ∷ (441, Name.nr_epoll_pwait2)
    ∷ (442, Name.nr_mount_setattr)
    ∷ (444, Name.nr_landlock_create_ruleset)
    ∷ (445, Name.nr_landlock_add_rule)
    ∷ (446, Name.nr_landlock_restrict_self)
    ∷ (448, Name.nr_process_mrelease)
    ∷ (449, Name.nr_futex_waitv)
    ∷ (450, Name.nr_set_mempolicy_home_node)
    ∷ (451, Name.nr_cachestat)
    ∷ (452, Name.nr_fchmodat2)
    ∷ []
