-- ===== src/Barrier.antt =====
-- src/common/barrier.c: barriers.
pub mod Ops
pub mod System
pub mod Invariant
pub mod Quiet
pub mod Arriving
pub mod Opening
pub mod Releasing
pub mod Parking
pub mod Safety
pub mod Progress
