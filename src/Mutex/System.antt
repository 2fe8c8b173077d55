-- ===== src/Mutex/System.antt =====
-- `n` threads that use one mutex of src/common/mutex.c, interleaved in any order. A step is one
-- section under the spinlock, or one call of `uthread_runnable` between two sections.
use upthread.Base.{ℕ, zero, suc, ◌<◌, ◌≡◌, true, Option, none, some}
use upthread.Base.Sums.{update}
use upthread.Mutex.Ops.{
  Mutex, Status, success, Locking, acquired, asleep, mutex_lock, lock_round, mutex_trylock,
  mutex_unlock, is_recursive, MutexAttr, mutex_init,
}

-- Where a thread stands.
pub data Pc : Type 0 where
  idle : Pc  -- it does not hold the mutex and calls nothing
  parked : Pc  -- blocked in `upthread_mutex_lock`
  woken : Pc  -- made runnable: before the next `spin_pdr_lock` of the loop
  holding : (extra : ℕ) → Pc  -- it holds the mutex, locked `extra` times more than once
  waking : (next : ℕ) → Pc  -- after the section of unlock: before `uthread_runnable(next)`

pub record System : Type 0 where
  pub mutex : Mutex
  pub pc : ℕ → Pc

abbrev pub after_lock : ℕ → Locking → Pc
after_lock k acquired = holding k
after_lock k asleep = parked

abbrev pub after_try : Pc → ℕ → Status → Pc
after_try p k success = holding k
after_try p k _ = p

abbrev pub after_unlock : ℕ → Option ℕ → Pc
after_unlock (suc k) next = holding k
after_unlock zero none = idle
after_unlock zero (some t) = waking t

abbrev pub move : ℕ → Pc → Mutex → System → System
move i p m s = record { mutex = m; pc = update s.pc i p }

-- A thread unlocks only what it holds, and calls lock again on what it holds only if the mutex is
-- recursive: on a normal one POSIX has it wait for itself.
-- A step of thread `i`.
pub data Step (n i : ℕ) (s : System) : System → Type 0 where
  lock :
      i < n
      → s.pc i ≡ idle
      → Step n i s (let (r, m) = mutex_lock i s.mutex in move i (after_lock 0 r) m s)
  relock :
      (k : ℕ)
      → i < n
      → s.pc i ≡ holding k
      → is_recursive s.mutex ≡ true
      → Step n i s (let (r, m) = mutex_lock i s.mutex in move i (after_lock (suc k) r) m s)
  trylock :
      i < n
      → s.pc i ≡ idle
      → Step n i s (let (r, m) = mutex_trylock i s.mutex in move i (after_try idle 0 r) m s)
  retrylock :
      (k : ℕ)
      → i < n
      → s.pc i ≡ holding k
      → Step n i s
          (let (r, m) = mutex_trylock i s.mutex in move i (after_try (holding k) (suc k) r) m s)
  retry :
      i < n
      → s.pc i ≡ woken
      → Step n i s (let (r, m) = lock_round i s.mutex in move i (after_lock 0 r) m s)
  unlock :
      (k : ℕ)
      → i < n
      → s.pc i ≡ holding k
      → Step n i s (let (next, m) = mutex_unlock s.mutex in move i (after_unlock k next) m s)
  wake :
      (t : ℕ)
      → i < n
      → s.pc i ≡ waking t
      → Step n i s (record s { pc = update (update s.pc t woken) i idle })

pub data Reach (n : ℕ) : System → Type 0 where
  -- After `upthread_mutex_init`, with any attributes.
  start :
      (garbage m : Mutex) (attr : Option MutexAttr)
      → mutex_init (some garbage) attr ≡ (success, some m)
      → Reach n (record { mutex = m; pc = λ _. idle })
  next : {i : ℕ} {s s' : System} → Reach n s → Step n i s s' → Reach n s'
