-- ===== src/Pvcq.antt =====
-- src/pvcq/upthread.c: the scheduler with a queue for each vcore.
pub mod State
pub mod Queues
pub mod Invariant
pub mod Inserting
pub mod Stealing
pub mod Dequeue
pub mod Threads
pub mod Lifecycle
pub mod Stacks
pub mod Working
pub mod Placing
pub mod TlsAware
pub mod Swapping
pub mod Joining
pub mod Entry
pub mod System
pub mod Entering
pub mod Places
pub mod Slots
pub mod Owed
pub mod Kept
pub mod Moves
pub mod Running
pub mod Freeing
pub mod Ending
pub mod Allocated
pub mod Debts
pub mod Renewed
pub mod Settled
pub mod Steps
pub mod Starting
pub mod OnePlace
