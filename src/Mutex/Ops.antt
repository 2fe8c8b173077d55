-- ===== src/Mutex/Ops.antt =====
-- src/common/mutex.c: each section between `spin_pdr_lock` and `spin_pdr_unlock` is one function on
-- the mutex. parlib's spinlock gives such sections mutual exclusion, so the field `lock` is not part
-- of the state; what is done after the unlock is returned.
use upthread.Base.{
  ℕ, Bool, false, ◌&&◌, List, [], ℤ, pos, incr, decr, nonzero, Option, none, some, same,
  if◌then◌else◌, insert_tail, pop_head, lt_int, not, ◌==◌, negsuc,
}

-- Results of the calls; the numbers of <errno.h> are the platform's.
pub data Status : Type 0 where
  success einval ebusy : Status

-- `upthread_mutexattr_t`: an int, whose values are those of the enumeration of upthread-common.h.
pub record MutexAttr : Type 0 where
  pub type : ℤ

-- UPTHREAD_MUTEX_NORMAL, UPTHREAD_MUTEX_RECURSIVE, NUM_UPTHREAD_MUTEX_TYPES.
abbrev pub mutex_normal : ℤ
mutex_normal = pos 0

abbrev pub mutex_recursive : ℤ
mutex_recursive = pos 1

abbrev pub num_mutex_types : ℤ
num_mutex_types = pos 2

-- `struct upthread_mutex`
pub record Mutex : Type 0 where
  pub attr : MutexAttr
  pub queue : List ℕ
  pub locked : ℤ
  pub owner : Option ℕ

abbrev default_attr : MutexAttr
default_attr = record { type = mutex_normal }

-- `upthread_mutexattr_init`; `none` is a null pointer.
unfoldable pub mutexattr_init : Option MutexAttr → Status × Option MutexAttr
mutexattr_init none = (einval, none)
mutexattr_init (some a) = (success, some default_attr)

-- `upthread_mutexattr_gettype`
unfoldable pub mutexattr_gettype : Option MutexAttr → Status × Option ℤ
mutexattr_gettype none = (einval, none)
mutexattr_gettype (some a) = (success, some a.type)

-- `upthread_mutexattr_settype`
unfoldable pub mutexattr_settype : Option MutexAttr → ℤ → Status × Option MutexAttr
mutexattr_settype none type = (einval, none)
mutexattr_settype (some a) type =
    if not (lt_int type num_mutex_types)
    then (einval, some a)
    else (success, some (record { type = type }))

-- `upthread_mutex_init`, at a mutex that may be NULL and attributes that may be NULL.
unfoldable pub mutex_init : Option Mutex → Option MutexAttr → Status × Option Mutex
mutex_init none attr = (einval, none)
mutex_init (some m) attr = (
  success,
  some (record {
    attr = elim attr [ none ↦ default_attr | some a ↦ a ];
    queue = [];
    locked = pos 0;
    owner = none;
  }),
)

abbrev pub is_recursive : Mutex → Bool
is_recursive m = elim m.attr.type [ pos n ↦ n == 1 | negsuc n ↦ false ]

-- `mutex->attr.type == UPTHREAD_MUTEX_RECURSIVE && mutex->owner == upthread_self()`
abbrev pub is_relock : ℕ → Mutex → Bool
is_relock self m = is_recursive m && same m.owner (some self)

-- `mutex->owner = upthread_self(); mutex->locked++;`
abbrev pub take : ℕ → Mutex → Mutex
take self m = record m { owner = some self; locked = incr m.locked }

-- `block`: the queue part, with the lock still held.
abbrev pub enqueue : ℕ → Mutex → Mutex
enqueue self m = record m { queue = insert_tail m.queue self }

-- The section of `upthread_mutex_trylock`.
unfoldable pub mutex_trylock : ℕ → Mutex → Status × Mutex
mutex_trylock self m =
    if is_relock self m
    then (success, record m { locked = incr m.locked })
    else if nonzero m.locked
    then (ebusy, m)
    else (success, take self m)

-- How a section of `upthread_mutex_lock` ends: with the mutex, or asleep in its queue.
pub data Locking : Type 0 where
  acquired asleep : Locking

-- A round of the loop of `upthread_mutex_lock`, up to the unlock: by the caller at the end of the
-- function, or in `block` by the vcore after it has queued the caller.
unfoldable pub lock_round : ℕ → Mutex → Locking × Mutex
lock_round self m = if nonzero m.locked then (asleep, enqueue self m) else (acquired, take self m)

-- The first section of `upthread_mutex_lock`; the sections after a sleep are `lock_round`.
unfoldable pub mutex_lock : ℕ → Mutex → Locking × Mutex
unfolding lock_round
mutex_lock self m =
    if is_relock self m then (acquired, record m { locked = incr m.locked }) else lock_round self m

-- The section of `upthread_mutex_unlock`, and the thread to be made runnable after it.
unfoldable pub mutex_unlock : Mutex → Option ℕ × Mutex
mutex_unlock m =
    let m' = record m { locked = decr m.locked } in
    if not (nonzero m'.locked)
    then (let (first, rest) = pop_head m'.queue in
        (first, record m' { queue = rest; owner = none }))
    else (none, m')

-- `upthread_mutex_trylock`, `upthread_mutex_lock` up to the end of its first section, and
-- `upthread_mutex_unlock` with the thread to be made runnable, at a pointer that may be NULL.
unfoldable pub trylock_call : ℕ → Option Mutex → Status × Option Mutex
unfolding mutex_trylock
trylock_call self none = (einval, none)
trylock_call self (some m) = let (status, m') = mutex_trylock self m in (status, some m')

unfoldable pub lock_call : ℕ → Option Mutex → Status × Option (Locking × Mutex)
unfolding mutex_lock
lock_call self none = (einval, none)
lock_call self (some m) = (success, some (mutex_lock self m))

unfoldable pub unlock_call : Option Mutex → Status × Option (Option ℕ × Mutex)
unfolding mutex_unlock
unlock_call none = (einval, none)
unlock_call (some m) = (success, some (mutex_unlock m))
