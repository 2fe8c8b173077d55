-- ===== src/Condvar/System.antt =====
-- `n` threads that use one mutex and one condition variable of src/common/condvar.c and mutex.c,
-- interleaved in any order. A step is one section under the mutex's spinlock, one section under the
-- lock of the condition variable or a part of it that another thread can see, or one call of
-- `uthread_runnable`.
use upthread.Base.{ℕ, ◌<◌, ◌≡◌, ◌⊎◌, Bool, true, false, Option, none, some, insert_tail, pop_head}
use upthread.Base.Sums.{update}
use upthread.Mutex.Ops.{
  Mutex, MutexAttr, success, Locking, acquired, asleep, mutex_init, mutex_lock, lock_round,
  mutex_unlock,
}
use upthread.Mutex.System as MutexSystem
use upthread.Condvar.Ops.{Condvar, cond_init}

-- Where a thread stands. `held` is whether the caller of signal or broadcast holds the mutex.
pub data Pc : Type 0 where
  idle : Pc
  holding : Pc  -- it holds the mutex, and calls nothing
  parked : Pc  -- blocked in `upthread_mutex_lock`
  woken : Pc  -- made runnable there: before the next round of the loop
  waking : (next : ℕ) → Pc  -- in `upthread_mutex_unlock`, before `uthread_runnable(next)`
  entering : Pc  -- in `upthread_cond_wait`, before the lock of the condition variable
  releasing : Pc  -- in `block`, queued: before `upthread_mutex_unlock`
  handing : (next : ℕ) → Pc  -- in that, before `uthread_runnable(next)`
  leaving : Pc  -- in `block`, before `mcs_pdr_unlock`
  sleeping : Pc
  relocking : Pc  -- made runnable: before `upthread_mutex_lock` of `upthread_cond_wait`
  signalling : (held : Bool) → Pc  -- in `upthread_cond_signal`, before the lock
  sweeping : (held : Bool) → Pc  -- in `upthread_cond_broadcast`, before the lock of a round
  rousing : (held more : Bool) (thread : ℕ) → Pc  -- in these, before `uthread_runnable`

-- The mutex has the address 0. `lock` is the holder of the condition variable's lock.
pub record System : Type 0 where
  pub mutex : Mutex
  pub cond : Condvar
  pub lock : Option ℕ
  pub pc : ℕ → Pc

abbrev pub after_lock : Locking → Pc
after_lock acquired = holding
after_lock asleep = parked

abbrev pub after_unlock : Option ℕ → Pc
after_unlock none = idle
after_unlock (some t) = waking t

-- The unlock in `block`.
abbrev pub after_release : Option ℕ → Pc
after_release none = leaving
after_release (some t) = handing t

-- The return of `upthread_cond_signal` or `upthread_cond_broadcast`.
abbrev pub back : Bool → Pc
back true = holding
back false = idle

-- After `uthread_runnable` in them; `more` is whether it was a round of a broadcast.
abbrev pub after_rouse : Bool → Bool → Pc
after_rouse held true = sweeping held
after_rouse held false = back held

-- After the section that takes the first waiter.
abbrev pub after_take : Bool → Bool → Option ℕ → Pc
after_take held more none = back held
after_take held more (some t) = rousing held more t

abbrev pub move : ℕ → Pc → Mutex → System → System
move i p m s = record s { mutex = m; pc = update s.pc i p }

-- `c->waiting_mutex = m`, and the queueing of the caller by `block`.
abbrev pub enter_queue : ℕ → Condvar → Condvar
enter_queue self c = record c { waiting_mutex = some 0; queue = insert_tail c.queue self }

-- The section of a signal, or of a round of a broadcast.
abbrev pub take_waiter : ℕ → Bool → Bool → System → System
take_waiter i held more s =
    let (first, rest) = pop_head s.cond.queue in
    record s {
      cond = record s.cond { queue = rest };
      pc = update s.pc i (after_take held more first);
    }

-- A step of thread `i`. A thread waits with the mutex locked once.
pub data Step (n i : ℕ) (s : System) : System → Type 0 where
  lock :
      i < n
      → (s.pc i ≡ idle) ⊎ (s.pc i ≡ relocking)
      → Step n i s (let (r, m) = mutex_lock i s.mutex in move i (after_lock r) m s)
  retry :
      i < n
      → s.pc i ≡ woken
      → Step n i s (let (r, m) = lock_round i s.mutex in move i (after_lock r) m s)
  unlock :
      i < n
      → s.pc i ≡ holding
      → Step n i s (let (next, m) = mutex_unlock s.mutex in move i (after_unlock next) m s)
  wake :
      (t : ℕ)
      → i < n
      → s.pc i ≡ waking t
      → Step n i s (record s { pc = update (update s.pc t woken) i idle })
  wait : i < n → s.pc i ≡ holding → Step n i s (record s { pc = update s.pc i entering })
  queues :
      i < n
      → s.pc i ≡ entering
      → s.lock ≡ none
      → Step n i s
          (record s { cond = enter_queue i s.cond; lock = some i; pc = update s.pc i releasing })
  releases :
      i < n
      → s.pc i ≡ releasing
      → s.cond.waiting_mutex ≡ some 0
      → Step n i s (let (next, m) = mutex_unlock s.mutex in move i (after_release next) m s)
  hands :
      (t : ℕ)
      → i < n
      → s.pc i ≡ handing t
      → Step n i s (record s { pc = update (update s.pc t woken) i leaving })
  leaves :
      i < n → s.pc i ≡ leaving → Step n i s (record s { lock = none; pc = update s.pc i sleeping })
  signal :
      (held : Bool)
      → i < n
      → s.pc i ≡ back held
      → Step n i s (record s { pc = update s.pc i (signalling held) })
  signals :
      (held : Bool)
      → i < n
      → s.pc i ≡ signalling held
      → s.lock ≡ none
      → Step n i s (take_waiter i held false s)
  broadcast :
      (held : Bool)
      → i < n
      → s.pc i ≡ back held
      → Step n i s (record s { pc = update s.pc i (sweeping held) })
  sweeps :
      (held : Bool)
      → i < n
      → s.pc i ≡ sweeping held
      → s.lock ≡ none
      → Step n i s (take_waiter i held true s)
  rouses :
      (held more : Bool) (t : ℕ)
      → i < n
      → s.pc i ≡ rousing held more t
      → Step n i s (record s { pc = update (update s.pc t relocking) i (after_rouse held more) })

pub data Reach (n : ℕ) : System → Type 0 where
  -- After `upthread_mutex_init`, with any attributes, and `upthread_cond_init`.
  start :
      (garbage_m m : Mutex) (attr : Option MutexAttr) (garbage_c c : Condvar)
      → mutex_init (some garbage_m) attr ≡ (success, some m)
      → cond_init (some garbage_c) ≡ (success, some c)
      → Reach n (record { mutex = m; cond = c; lock = none; pc = λ _. idle })
  next : {i : ℕ} {s s' : System} → Reach n s → Step n i s s' → Reach n s'

-- What the mutex sees of a thread.
abbrev pub held_pc : Bool → MutexSystem.Pc
held_pc true = MutexSystem.holding 0
held_pc false = MutexSystem.idle

abbrev pub mutex_pc : Pc → MutexSystem.Pc
mutex_pc idle = MutexSystem.idle
mutex_pc holding = MutexSystem.holding 0
mutex_pc parked = MutexSystem.parked
mutex_pc woken = MutexSystem.woken
mutex_pc (waking t) = MutexSystem.waking t
mutex_pc entering = MutexSystem.holding 0
mutex_pc releasing = MutexSystem.holding 0
mutex_pc (handing t) = MutexSystem.waking t
mutex_pc leaving = MutexSystem.idle
mutex_pc sleeping = MutexSystem.idle
mutex_pc relocking = MutexSystem.idle
mutex_pc (signalling held) = held_pc held
mutex_pc (sweeping held) = held_pc held
mutex_pc (rousing held more t) = held_pc held

abbrev pub view : System → MutexSystem.System
view s = record { mutex = s.mutex; pc = λ i. mutex_pc (s.pc i) }
