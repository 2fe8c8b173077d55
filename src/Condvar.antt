-- ===== src/Condvar.antt =====
-- src/common/condvar.c: condition variables.
pub mod Ops
pub mod System
pub mod Refinement
pub mod Invariant
pub mod Safety
pub mod Progress
pub mod Wakeups
