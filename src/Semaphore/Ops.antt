-- ===== src/Semaphore/Ops.antt =====
-- src/common/semaphore.c: the semaphore, and the atomic accesses of its functions.

use upthread.Base.{
  Bool, true, false, Option, none, some, if◌then◌else◌, ℤ, pos, decr, positive, negative, eq_int,
  fetch_and_add,
}

pub record Sem : Type 0 where
  pub value : ℤ
  pub nwaiters : ℤ

-- What the functions return; the numbers of <errno.h> are the platform's.
pub data SemStatus : Type 0 where
  success einval : SemStatus

-- `upthread_sem_init`, at a pointer that may be NULL.
unfoldable pub sem_init : Option Sem → ℤ → SemStatus × Option Sem
sem_init none n = (einval, none)
sem_init (some sem) n =
    if negative n
    then (einval, some sem)
    else (success, some (record { value = n; nwaiters = pos 0 }))

-- `__sync_bool_compare_and_swap(pvalue, old, new)`: whether it stored, and the int after it.
abbrev pub compare_and_swap : ℤ → ℤ → ℤ → Bool × ℤ
compare_and_swap current old new = if eq_int current old then (true, new) else (false, current)

-- A round of `atomic_decrement_if_positive` after its load of `value`: it returns what it loaded,
-- goes on to the swap, or has swapped and returns.
pub data Decrement : Type 0 where
  returns swaps : Decrement

abbrev pub loaded : ℤ → Decrement
loaded value = if positive value then swaps else returns

-- The swap of the round.
unfoldable pub swap_decrement : ℤ → Sem → Bool × Sem
swap_decrement value sem =
    let (stored, now) = compare_and_swap sem.value value (decr value) in
    (stored, record sem { value = now })

-- `__sync_fetch_and_add(&sem->nwaiters, 1)` of `upthread_sem_wait`
unfoldable pub count_waiter : Sem → Sem
unfolding fetch_and_add
count_waiter sem = record sem { nwaiters = fetch_and_add sem.nwaiters }

-- `__sync_fetch_and_add(&sem->value, 1)` of `upthread_sem_post`
unfoldable pub add_value : Sem → Sem
unfolding fetch_and_add
add_value sem = record sem { value = fetch_and_add sem.value }

-- How `upthread_sem_wait` and `upthread_sem_post` begin, at a pointer that may be NULL: whether they go
-- on to their first access.
pub data Begins : Type 0 where
  returns_einval accesses : Begins

abbrev pub begins : Option Sem → Begins
begins none = returns_einval
begins (some sem) = accesses
