-- ===== src/Kernel.antt =====
-- The kernel's state and operations, in the child modules.
pub mod State
pub mod Alloc
pub mod Thread
pub mod Semaphore
pub mod Executable
pub mod Sleep
pub mod Services
pub mod Dispatch
