-- ===== src/Kernel.antt =====
-- linux-0.11/kernel: tasks, the scheduler, signals and the process system calls.
pub mod Task
pub mod Sched
pub mod Timer
pub mod Sys
pub mod Mktime
pub mod Signal
pub mod Kill
pub mod Vsprintf
pub mod Wait
pub mod Fork
pub mod Tty
pub mod Sleep
