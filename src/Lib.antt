-- ===== src/Lib.antt =====
-- The upthread library: user-level threads over the vcores of parlib, with schedulers that the
-- program links one of, and the synchronization objects that work with each of them.
--
-- A thread is a control block (`struct upthread_tcb`); a pointer to one is the number of its
-- address. The objects of src/common put threads that must wait into queues and call parlib's
-- `uthread_runnable` to make them run again, which calls `pth_thread_runnable` of the scheduler; the
-- scheduler keeps the queues of threads that can run and gives them to vcores in `pth_sched_entry`.
--
-- Which file is about which part:
--   Base        shared names: Boolean tests, native integers, lists as tail queues, sums over threads
--   Tcb         src/common/upthread-types.h and upthread-common.h: blocks, states and attributes
--   Attributes  src/common/common.c: the functions on thread attributes
--   Mutex       src/common/mutex.c. Ops has a function for each section under the spinlock
--               (`mutex_lock`, `lock_round` for a round of its loop, `mutex_trylock`, `mutex_unlock`);
--               System interleaves the sections of n threads; Invariant, Steps, Safety and Types
--               are the proofs
--   Futex       src/common/futex.c and futex.h: the queue of each address
--   Semaphore   src/common/semaphore.c: each atomic access is a step of System, and so is each half of
--               `__futex_block`, since the value changes outside the futex's lock; Invariant, Moves,
--               Safety and Refinement are the proofs
--   Condvar     src/common/condvar.c. Ops has a function for each section, System interleaves n
--               threads with one mutex and one condition variable, with the part of `block` that
--               holds the lock as steps of its own; Refinement, Invariant, Safety, Progress and
--               Wakeups are the proofs
--   Barrier     src/common/barrier.c. Ops has each access to the barrier and each section on a queue of
--               blocked threads, System interleaves those of n threads that wait again and again;
--               Invariant, Quiet, Arriving, Opening, Releasing, Parking, Safety and Progress are the
--               proofs
--   Gq          src/gq/upthread.c, the scheduler with one queue. State has its variables, Schedule the
--               queues, Threads creation, join and exit, Handshake the race of a join and an exit,
--               with each access to the shared block as a step; Invariant, Totality, Exits,
--               Outcomes, Syscalls, Dispatch, Fairness and Attributed are the proofs
--   Pvcq        src/pvcq/upthread.c, the scheduler with a queue per vcore and stealing. State and
--               Queues have the queues and `__pth_thread_dequeue`, Threads the allocation of blocks
--               and the callbacks, Lifecycle creation, join and exit; System lets the vcores run
--               them in any order, from `upthread_lib_init` on, a step being one callback or one
--               round of `pth_sched_entry`; TlsAware has the choice of a queue by TLS address.
--               Invariant, Inserting, Stealing, Dequeue, Working, Placing, Entering, Entry,
--               Swapping, Joining and Stacks are proofs on the operations; Places, Slots, Kept,
--               Moves, Running, Ending, Allocated, Steps, Starting and OnePlace those on System, where
--               Owed, Freeing, Debts, Renewed and Settled keep track of who frees which block
--   Juggle      src/juggle/upthread.c, which has the text of src/pvcq/upthread.c and alarms by which
--               vcores take their processor back. Alarm has the data of the alarms, Vcores interleaves
--               the vcores and the alarms, Scheduler has `pth_sched_entry`, `alarm_callback` and
--               `upthread_set_sched_period` whole, and Lifecycle the rest as Pvcq's functions on its
--               part of the state; Memory, Arming, Entry and Preempt are the proofs
--   Lithe       src/lithe/upthread.c: Contexts has the start, allocation, creation, join and exit of
--               threads that are contexts of the lithe library; Joining is the proof
--   Examples    concrete states and runs at which the theorems apply
--
-- How the code is modelled. A section under a lock is one function on the state, since parlib's locks
-- keep such sections apart. A function that parlib suspends in `uthread_yield` is two, and the
-- callback that the vcore runs in between is a third. An operation that can fail an assertion or
-- follow a null pointer returns `none` there. Ints that the code steps with `++` and `--` are integers
-- without a bound; those that it changes by atomic additions (the value and `nwaiters` of a
-- semaphore), `stacksize`, the thread numbers and pointers wrap around as written. Calls that return
-- nothing are recorded in the state's `calls`.
--
-- Bounds. A loop that other vcores can prolong takes the list of what they do in each round; it ends
-- with the list. The scan over all vcores has max_vcores rounds as its fuel, and comes back to the
-- caller before they end, as the numbers of the vcores are below max_vcores. The rounds of a
-- broadcast have one more than the waiters.
--
-- Parameters. What is not in this repository is a parameter: parlib's `uthread_runnable`, its wait-
-- free list, ROUNDUP, `rand_r`, `mmap` and `munmap`, the sizes of the platform. The vcores of Pvcq rely
-- on this: the list gives back what was put into it, once, and mmap gives no memory that is still in
-- use.
--
-- Not modelled: the wrappers of lithe's objects in src/lithe, src/common/dtls.c and
-- src/common/unsupported.c, which only call other code or abort, and time. In Pvcq/System the sections
-- that one callback or one dequeue takes on several queues are one step, and are not interleaved with
-- those of other vcores; a thread is joined by at most one other, before its block is freed, and
-- `upthread_set_num_vcores` is given at least 1. In Condvar/System a thread that waits has locked the
-- mutex once.
pub mod Base
pub mod Tcb
pub mod Attributes
pub mod Mutex
pub mod Futex
pub mod Semaphore
pub mod Condvar
pub mod Barrier
pub mod Gq
pub mod Pvcq
pub mod Juggle
pub mod Lithe
pub mod Examples
