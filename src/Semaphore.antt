-- ===== src/Semaphore.antt =====
-- src/common/semaphore.c: counting semaphores over futexes.
pub mod Ops
pub mod System
pub mod Invariant
pub mod Moves
pub mod Safety
pub mod Refinement
