-- ===== src/Dispatch/Number.antt =====
-- The names of the system calls: the TUX_SYS_… of src/arch/x64/arch_sys.h and of
-- src/arch/arm64/arch_sys.h, which number them.
pub mod X64
pub mod Arm64

pub data Name : Type 0 where
  nr_read nr_write nr_open nr_close nr_stat nr_fstat nr_lstat nr_poll nr_lseek nr_mmap nr_mprotect
        nr_munmap nr_brk nr_rt_sigaction nr_rt_sigprocmask nr_rt_sigreturn nr_ioctl nr_pread64
        nr_pwrite64 nr_readv nr_writev nr_access nr_sched_yield nr_mremap nr_getpid nr_socket
        nr_clone nr_fork nr_vfork nr_execve nr_exit nr_uname nr_fcntl nr_fsync nr_truncate
        nr_ftruncate nr_getcwd nr_chdir nr_fchdir nr_rename nr_mkdir nr_unlink nr_readlink nr_chmod
        nr_fchmod nr_chown nr_fchown nr_lchown nr_getrlimit nr_sysinfo nr_rt_sigpending
        nr_rt_sigtimedwait nr_rt_sigqueueinfo nr_rt_sigsuspend nr_sigaltstack nr_statfs nr_prctl
        nr_arch_prctl nr_setrlimit nr_gettid nr_getxattr nr_lgetxattr nr_time nr_futex
        nr_sched_setaffinity nr_sched_getaffinity nr_getdents64 nr_set_tid_address nr_clock_gettime
        nr_exit_group nr_openat nr_mkdirat nr_newfstatat nr_unlinkat nr_renameat nr_readlinkat
        nr_faccessat nr_set_robust_list nr_utimensat nr_prlimit64 nr_getrandom nr_membarrier
        nr_statx nr_rseq nr_io_setup nr_io_destroy nr_io_submit nr_io_cancel nr_io_getevents
        nr_setxattr nr_lsetxattr nr_fsetxattr nr_fgetxattr nr_listxattr nr_llistxattr nr_flistxattr
        nr_removexattr nr_lremovexattr nr_fremovexattr nr_lookup_dcookie nr_eventfd2
        nr_epoll_create1 nr_epoll_ctl nr_epoll_pwait nr_dup nr_dup3 nr_inotify_init1
        nr_inotify_add_watch nr_inotify_rm_watch nr_ioprio_set nr_ioprio_get nr_flock nr_mknodat
        nr_symlinkat nr_linkat nr_umount2 nr_mount nr_pivot_root nr_nfsservctl nr_fstatfs
        nr_fallocate nr_chroot nr_fchmodat nr_fchownat nr_vhangup nr_pipe2 nr_quotactl nr_preadv
        nr_pwritev nr_sendfile nr_pselect6 nr_ppoll nr_signalfd4 nr_vmsplice nr_splice nr_tee
        nr_sync nr_fdatasync nr_sync_file_range nr_timerfd_create nr_timerfd_settime
        nr_timerfd_gettime nr_acct nr_capget nr_capset nr_personality nr_waitid nr_unshare
        nr_get_robust_list nr_nanosleep nr_getitimer nr_setitimer nr_kexec_load nr_init_module
        nr_delete_module nr_timer_create nr_timer_gettime nr_timer_getoverrun nr_timer_settime
        nr_timer_delete nr_clock_settime nr_clock_getres nr_clock_nanosleep nr_syslog nr_ptrace
        nr_sched_setparam nr_sched_setscheduler nr_sched_getscheduler nr_sched_getparam
        nr_sched_get_priority_max nr_sched_get_priority_min nr_sched_rr_get_interval
        nr_restart_syscall nr_kill nr_tkill nr_tgkill nr_setpriority nr_getpriority nr_reboot
        nr_setregid nr_setgid nr_setreuid nr_setuid nr_setresuid nr_getresuid nr_setresgid
        nr_getresgid nr_setfsuid nr_setfsgid nr_times nr_setpgid nr_getpgid nr_getsid nr_setsid
        nr_getgroups nr_setgroups nr_sethostname nr_setdomainname nr_getrusage nr_umask nr_getcpu
        nr_gettimeofday nr_settimeofday nr_adjtimex nr_getppid nr_getuid nr_geteuid nr_getgid
        nr_getegid nr_mq_open nr_mq_unlink nr_mq_timedsend nr_mq_timedreceive nr_mq_notify
        nr_mq_getsetattr nr_msgget nr_msgctl nr_msgrcv nr_msgsnd nr_semget nr_semctl nr_semtimedop
        nr_semop nr_shmget nr_shmctl nr_shmat nr_shmdt nr_socketpair nr_bind nr_listen nr_accept
        nr_connect nr_getsockname nr_getpeername nr_sendto nr_recvfrom nr_setsockopt nr_getsockopt
        nr_shutdown nr_sendmsg nr_recvmsg nr_readahead nr_add_key nr_request_key nr_keyctl
        nr_fadvise64 nr_swapon nr_swapoff nr_msync nr_mlock nr_munlock nr_mlockall nr_munlockall
        nr_mincore nr_madvise nr_remap_file_pages nr_mbind nr_get_mempolicy nr_set_mempolicy
        nr_migrate_pages nr_move_pages nr_rt_tgsigqueueinfo nr_perf_event_open nr_accept4
        nr_recvmmsg nr_wait4 nr_fanotify_init nr_fanotify_mark nr_name_to_handle_at
        nr_open_by_handle_at nr_clock_adjtime nr_syncfs nr_setns nr_sendmmsg nr_process_vm_readv
        nr_process_vm_writev nr_kcmp nr_finit_module nr_sched_setattr nr_sched_getattr nr_renameat2
        nr_seccomp nr_memfd_create nr_bpf nr_execveat nr_userfaultfd nr_mlock2 nr_copy_file_range
        nr_preadv2 nr_pwritev2 nr_pkey_mprotect nr_pkey_alloc nr_pkey_free nr_io_pgetevents
        nr_kexec_file_load nr_pidfd_send_signal nr_io_uring_setup nr_io_uring_enter
        nr_io_uring_register nr_open_tree nr_move_mount nr_fsopen nr_fsconfig nr_fsmount nr_fspick
        nr_pidfd_open nr_clone3 nr_close_range nr_openat2 nr_pidfd_getfd nr_faccessat2
        nr_process_madvise nr_epoll_pwait2 nr_mount_setattr nr_landlock_create_ruleset
        nr_landlock_add_rule nr_landlock_restrict_self nr_process_mrelease nr_futex_waitv
        nr_set_mempolicy_home_node nr_cachestat nr_fchmodat2 :
      Name
