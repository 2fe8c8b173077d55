-- ===== src/Examples.antt =====
-- Runs on concrete states, at which the theorems apply.
pub mod Mutexes
pub mod Semaphores
pub mod Joins
pub mod GlobalQueue
pub mod Futexes
pub mod VcoreQueues
pub mod Barriers
pub mod Alarms
pub mod Contexts
pub mod Condvars
pub mod VcoreSystem
