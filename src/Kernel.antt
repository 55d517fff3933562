-- ===== src/Kernel.antt =====
-- grass: the process table, the message passing of system calls, and the scheduler.
pub mod Process
pub mod Earth
pub mod Messages
pub mod Scheduler
mod Examples
