-- ===== src/Tests.antt =====
-- Runs of the model at concrete states: a process with four open files, and what the theorems say
-- of it.
pub mod Demo
pub mod Files
pub mod Opens
pub mod Calls
pub mod Starts
pub mod Setups
pub mod Maps
pub mod Spaces
pub mod Programs
pub mod Numbers
pub mod Stacks
pub mod Races
pub mod Runs
pub mod Births
pub mod Waits
pub mod Machines
pub mod Perfs
pub mod Dirs
