-- ===== src/Davroska.antt =====
-- davroska, the OSEK-like scheduler under davroska/.
pub mod State
pub mod Queue
pub mod Priority
pub mod Time
pub mod Mutex
pub mod Extended
pub mod Schedule
pub mod Interrupts
pub mod Config
pub mod Start
pub mod Osek
