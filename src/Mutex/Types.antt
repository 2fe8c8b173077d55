-- ===== src/Mutex/Types.antt =====
-- src/common/mutex.c, lines 19-35, and what the type of a mutex changes.
use upthread.Base.{
  ℕ, ◌≡◌, refl, sym, ap, subst, ◌≢◌, inl, inr, Option, none, some, [], ◌∷◌, arith, ◌==◌, ==_refl,
  Bool-cases, some_inj, ℤ, pos, negsuc, lt_int,
}
use upthread.Mutex.Ops.{
  Mutex, MutexAttr, ebusy, success, num_mutex_types, mutex_recursive, mutexattr_settype, mutex_init,
  mutex_lock, mutex_trylock, lock_round, acquired, asleep, Status,
}

-- What the holder of a mutex sees when it locks or tries it again.
pub data Again (self : ℕ) (type : ℤ) (m : Mutex) : Type 0 where
  counts :
      type ≡ mutex_recursive
      → mutex_lock self m ≡ (acquired, record m { locked = pos 2 })
      → mutex_trylock self m ≡ (success, record m { locked = pos 2 })
      → Again self type m
  blocks :
      type ≢ mutex_recursive
      → mutex_lock self m ≡ (asleep, record m { queue = self ∷ [] })
      → mutex_trylock self m ≡ (ebusy, m)
      → Again self type m

-- A fresh mutex of a type.
abbrev typed : ℤ → Mutex
typed type = record { attr = record { type = type }; queue = []; locked = pos 0; owner = none }

abbrev second : (Status × Option Mutex) → Option Mutex
second (st, x) = x

made-typed :
    (garbage m : Mutex) (a b : MutexAttr) (type : ℤ)
    → mutexattr_settype (some a) type ≡ (success, some b)
    → mutex_init (some garbage) (some b) ≡ (success, some m)
    → m ≡ typed type
unfolding mutexattr_settype mutex_init
made-typed garbage m a b type set made = elim (Bool-cases (lt_int type num_mutex_types)) [
  | inl e ↦ ground (arith, some_inj (ap (λ (r : Status × Option Mutex). r.1) made))
  | inr e ↦ absurd (ground arith)
]

typed-relock :
    (type : ℤ) (self : ℕ)
    → ((mutex_lock self (typed type)).0 ≡ acquired)
      × Again self type (mutex_lock self (typed type)).1
unfolding mutex_lock mutex_trylock lock_round
typed-relock (pos n) self = elim (Bool-cases (n == 1)) [
  | inl e ↦
      rw e (refl, counts (ground arith) (rw (e, ==_refl self) refl) (rw (e, ==_refl self) refl))
  | inr e ↦ rw e (refl, blocks (ground arith) (rw e refl) (rw e refl))
]
typed-relock (negsuc n) self = (refl, blocks (ground arith) refl refl)

-- After a type was set and a mutex was initialised with it, a thread takes the mutex; a second lock
-- or try by that thread is counted if the type is UPTHREAD_MUTEX_RECURSIVE, and else the lock puts the
-- thread to sleep behind itself and the try gives EBUSY and changes nothing.
pub relock_lem :
    (garbage m : Mutex) (a b : MutexAttr) (type : ℤ) (self : ℕ)
    → mutexattr_settype (some a) type ≡ (success, some b)
    → mutex_init (some garbage) (some b) ≡ (success, some m)
    → ((mutex_lock self m).0 ≡ acquired) × Again self type (mutex_lock self m).1
relock_lem garbage m a b type self set made =
    subst (λ x. ((mutex_lock self x).0 ≡ acquired) × Again self type (mutex_lock self x).1)
      (sym (made-typed garbage m a b type set made)) (typed-relock type self)
