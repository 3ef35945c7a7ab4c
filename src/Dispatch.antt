-- ===== src/Dispatch.antt =====
-- src/sys.c and src/arch/*/sys.c: from the number of a call and its registers to the handler.
pub mod Number
pub mod Handlers
pub mod Arch
pub mod Decode
pub mod Served
pub mod Every
pub mod Lives
