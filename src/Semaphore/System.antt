-- ===== src/Semaphore/System.antt =====
-- `n` threads that wait on and post one semaphore of src/common/semaphore.c, interleaved in any
-- order. A step is one atomic access to the semaphore, one section under the spinlock of its futex
-- queue, or one call of `uthread_runnable`. The two halves of `__futex_block` are steps of their own,
-- since the value can change under the spinlock.
use upthread.Base.{
  ℕ, suc, ◌<◌, ◌≡◌, Bool, true, false, ◌||◌, Option, none, some, List, [], ◌∷◌, if◌then◌else◌,
  insert_tail, ℤ, pos, positive, eq_int, int_max,
}
use upthread.Base.Sums.{update}
use upthread.Futex.Ops.{take_some}
use upthread.Semaphore.Ops.{
  Sem, success, Decrement, returns, swaps, loaded, swap_decrement, count_waiter, add_value,
  sem_init,
}

pub data Pc : Type 0 where
  idle : Pc
  -- `upthread_sem_wait`; `again` is true in the condition of its loop
  trying : (again : Bool) → Pc  -- before the load of `atomic_decrement_if_positive`
  swapping : (again : Bool) (value : ℤ) → Pc  -- before its compare-and-swap
  counting : Pc  -- before `nwaiters` is incremented
  entering : Pc  -- before the test of `futex_wait`
  yielding : Pc  -- before the spinlock of `__futex_block`
  checked : Pc  -- in `__futex_block`, which found the value 0
  asleep : Pc
  -- `upthread_sem_post`
  posted : Pc  -- the value is incremented: before the test of `nwaiters`
  taking : Pc  -- before the spinlock of `futex_wake_some`
  waking : (thread : ℕ) → Pc  -- before `uthread_runnable`

-- The semaphore, the futex queue of its value with the holder of the queue's spinlock, the threads,
-- how many waits and posts were granted, and whether an addition has gone past INT_MAX.
pub record System : Type 0 where
  pub sem : Sem
  pub queue : List ℕ
  pub lock : Option ℕ
  pub pc : ℕ → Pc
  pub taken : ℕ
  pub given : ℕ
  pub wrapped : Bool

-- After `atomic_decrement_if_positive` returned what is not positive.
abbrev pub after_fail : Bool → Pc
after_fail false = counting
after_fail true = entering

abbrev pub after_load : Bool → ℤ → Decrement → Pc
after_load again value returns = after_fail again
after_load again value swaps = swapping again value

abbrev pub to : ℕ → Pc → System → System
to i p s = record s { pc = update s.pc i p }

-- `futex(&sem->value, FUTEX_WAIT, 0, …)` goes on while the value is 0.
abbrev pub is_zero : System → Bool
is_zero s = eq_int s.sem.value (pos 0)

-- A swap grants a wait if it stores.
abbrev pub swapped : ℕ → Bool → Bool × Sem → System → System
swapped i again (true, sem) s = record (to i idle s) { sem = sem; taken = suc s.taken }
swapped i again (false, sem) s = record (to i (trying again) s) { sem = sem }

-- What `futex_wake_some` took from the queue.
abbrev pub took : ℕ → List ℕ × List ℕ → System → System
took i ([], rest) s = record (to i idle s) { queue = rest }
took i (t ∷ _, rest) s = record (to i (waking t) s) { queue = rest }

-- A step of thread `i`.
pub data Step (n i : ℕ) (s : System) : System → Type 0 where
  wait : i < n → s.pc i ≡ idle → Step n i s (to i (trying false) s)
  load :
      (again : Bool)
      → i < n
      → s.pc i ≡ trying again
      → Step n i s (to i (after_load again s.sem.value (loaded s.sem.value)) s)
  swap :
      (again : Bool) (value : ℤ)
      → i < n
      → s.pc i ≡ swapping again value
      → Step n i s (swapped i again (swap_decrement value s.sem) s)
  register :
      i < n
      → s.pc i ≡ counting
      → Step n i s (record (to i entering s) {
        sem = count_waiter s.sem;
        wrapped = s.wrapped || eq_int s.sem.nwaiters int_max;
      })
  enter :
      i < n → s.pc i ≡ entering → Step n i s (to i (if is_zero s then yielding else trying true) s)
  -- `__futex_block` takes the spinlock; if it finds another value it lets it go, and the thread is
  -- made runnable by `uthread_paused`.
  check :
      i < n
      → s.pc i ≡ yielding
      → s.lock ≡ none
      → Step n i s
          (if is_zero s then record (to i checked s) { lock = some i } else to i (trying true) s)
  sleep :
      i < n
      → s.pc i ≡ checked
      → Step n i s (record (to i asleep s) { queue = insert_tail s.queue i; lock = none })
  post :
      i < n
      → s.pc i ≡ idle
      → Step n i s (record (to i posted s) {
        sem = add_value s.sem;
        given = suc s.given;
        wrapped = s.wrapped || eq_int s.sem.value int_max;
      })
  look :
      i < n
      → s.pc i ≡ posted
      → Step n i s (to i (if positive s.sem.nwaiters then taking else idle) s)
  pop : i < n → s.pc i ≡ taking → s.lock ≡ none → Step n i s (took i (take_some (pos 1) s.queue) s)
  wake :
      (t : ℕ)
      → i < n
      → s.pc i ≡ waking t
      → Step n i s (record s { pc = update (update s.pc t (trying true)) i idle })

pub data Reach (n : ℕ) (initial : ℤ) : System → Type 0 where
  start :
      (garbage sem : Sem)
      → sem_init (some garbage) initial ≡ (success, some sem)
      → Reach n initial (record {
        sem = sem;
        queue = [];
        lock = none;
        pc = λ _. idle;
        taken = 0;
        given = 0;
        wrapped = false;
      })
  next : {i : ℕ} {s s' : System} → Reach n initial s → Step n i s s' → Reach n initial s'
