-- ===== src/Host/Posix.antt =====
-- The backend for hosts other than Linux: src/host/posix/*.c, less what Linux shares with it.
pub mod Futex
pub mod Dir
pub mod Rest
