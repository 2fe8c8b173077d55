-- ===== src/Juggle.antt =====
-- src/juggle/upthread.c: the scheduler that takes the processor back from its threads.
pub mod Alarm
pub mod Vcores
pub mod Memory
pub mod Scheduler
pub mod Lifecycle
pub mod Arming
pub mod Entry
pub mod Preempt
