-- ===== src/Examples.antt =====
-- Runs of the kernel, and the theorems at work on small inputs.
mod System
mod Sample
mod Lists
mod Buffers
mod Threads
mod Semaphores
mod Calls
mod Spawns
mod Davroska
mod Tasks
mod Alarms
mod Setup
mod Startup
mod Printing
mod Texts
mod Events
mod Interrupts
