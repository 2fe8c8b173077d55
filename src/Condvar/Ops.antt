-- ===== src/Condvar/Ops.antt =====
-- src/common/condvar.c: each section under the condition variable's lock is one function. The lock
-- of parlib gives such sections mutual exclusion, so the fields `lock` and `waiting_qnode`, which only
-- carry it from the thread to the vcore, are not part of the state.
use upthread.Base.{
  Bool, true, false, ℕ, zero, suc, Option, none, some, List, [], ◌>>=◌, insert_tail, pop_head,
}
use upthread.Base.Sums.{update}
use upthread.Mutex.Ops.{Mutex, Status, success, einval, Locking, mutex_unlock, mutex_lock}

-- `struct upthread_condvar`; a mutex is the number of its address.
pub record Condvar : Type 0 where
  pub waiting_mutex : Option ℕ
  pub queue : List ℕ

-- What the sections work on: the condition variable, the mutexes, and the calls of
-- `uthread_runnable`, oldest first.
pub record Shared : Type 0 where
  pub cond : Condvar
  pub mutex : ℕ → Mutex
  pub woken : List ℕ

-- `upthread_cond_init`; `none` is a null pointer.
unfoldable pub cond_init : Option Condvar → Status × Option Condvar
cond_init none = (einval, none)
cond_init (some c) = (success, some (record c { queue = [] }))

abbrev pub wake : Option ℕ → Shared → Shared
wake none s = s
wake (some t) s = record s { woken = insert_tail s.woken t }

-- `upthread_mutex_unlock(condvar->waiting_mutex)`
abbrev pub unlock : ℕ → Shared → Shared
unlock m s =
    let (next, m') = mutex_unlock (s.mutex m) in
    wake next (record s { mutex = update s.mutex m m' })

-- `block`, from the queueing to the unlock.
unfoldable pub block : ℕ → Shared → Option Shared
block self s =
    let c = s.cond in
    let s₁ = record s { cond = record c { queue = insert_tail c.queue self } } in
    c.waiting_mutex >>= λ m. some (unlock m s₁)

-- `upthread_cond_wait` from the lock to the end of `block`: the caller sleeps.
unfoldable pub wait_section : ℕ → ℕ → Shared → Option Shared
unfolding block
wait_section self m s = block self (record s { cond = record s.cond { waiting_mutex = some m } })

-- `upthread_cond_wait` after the caller has been woken: its last call.
unfoldable pub wait_relock : ℕ → ℕ → Shared → Locking × Shared
wait_relock self m s =
    let (r, m') = mutex_lock self (s.mutex m) in (r, record s { mutex = update s.mutex m m' })

-- The section of `upthread_cond_signal` and of a round of `upthread_cond_broadcast`.
unfoldable pub take_first : Shared → Option ℕ × Shared
take_first s =
    let (first, rest) = pop_head s.cond.queue in
    (first, record s { cond = record s.cond { queue = rest } })

-- `upthread_cond_signal`
unfoldable pub cond_signal : Shared → Shared
unfolding take_first
cond_signal s = let (first, s₁) = take_first s in wake first s₁

-- A round of `upthread_cond_broadcast`: `none` if the queue is empty, where the loop ends.
unfoldable pub broadcast_round : Shared → Option Shared
unfolding take_first
broadcast_round s = let (first, s₁) = take_first s in first >>= λ t. some (wake (some t) s₁)

-- `upthread_cond_broadcast`, with fuel for the rounds; `others` is what other threads do to the
-- state between two rounds. `none` is an end of the fuel.
unfoldable pub cond_broadcast : ℕ → (Shared → Shared) → Shared → Option Shared
unfolding broadcast_round
cond_broadcast zero others s = none
cond_broadcast (suc fuel) others s = elim (broadcast_round s) [
  | none ↦ some s
  | some s₁ ↦ cond_broadcast fuel others (others s₁)
]

-- The calls, with whether the pointer to the condition variable is NULL. `upthread_cond_wait` is here up to the sleep of its caller;
-- `none` in the second place is a call that goes wrong or has no fuel left.
unfoldable pub wait_call : ℕ → Bool → Option ℕ → Shared → Status × Option Shared
unfolding wait_section
wait_call self true m s = (einval, some s)
wait_call self false none s = (einval, some s)
wait_call self false (some m) s = (success, wait_section self m s)

unfoldable pub signal_call : Bool → Shared → Status × Shared
unfolding cond_signal
signal_call true s = (einval, s)
signal_call false s = (success, cond_signal s)

unfoldable pub broadcast_call : Bool → ℕ → (Shared → Shared) → Shared → Status × Option Shared
unfolding cond_broadcast
broadcast_call true fuel others s = (einval, some s)
broadcast_call false fuel others s = (success, cond_broadcast fuel others s)
