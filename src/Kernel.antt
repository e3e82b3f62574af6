-- ===== src/Kernel.antt =====
-- kernel/: time, timers, scheduling, signals, fork and exit, block requests, the identity of a process,
-- terminal queues, formatted text.
pub mod Exit
pub mod Fork
pub mod Ids
pub mod MkTime
pub mod Number
pub mod Requests
pub mod Sched
pub mod Signals
pub mod Task
pub mod Timers
pub mod TtyQueue
pub mod Tty
pub mod Sleep
pub mod Vsprintf
