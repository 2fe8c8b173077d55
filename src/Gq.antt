-- ===== src/Gq.antt =====
-- src/gq/upthread.c: the scheduler with one global ready queue.
pub mod State
pub mod Schedule
pub mod Threads
pub mod Invariant
pub mod Totality
pub mod Exits
pub mod Outcomes
pub mod Syscalls
pub mod Fairness
pub mod Handshake
pub mod Dispatch
pub mod Attributed
