-- ===== src/Futex.antt =====
-- src/common/futex.c and futex.h: blocking queues, one to an address.
pub mod Ops
pub mod Queues
