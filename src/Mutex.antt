-- ===== src/Mutex.antt =====
-- src/common/mutex.c: mutexes.
pub mod Ops
pub mod System
pub mod Invariant
pub mod Steps
pub mod Safety
pub mod Types
