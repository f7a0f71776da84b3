-- ===== src/Tests.antt =====
-- Runs of the models at concrete inputs.
pub mod Caches
pub mod Counters
pub mod Cores
pub mod Link
pub mod Descriptors
pub mod Loader
pub mod Harts
pub mod Syscalls
pub mod Viewers
pub mod Programs
pub mod Words
pub mod Timed
pub mod Instructions
pub mod Processes
pub mod Runs
pub mod Swaps
