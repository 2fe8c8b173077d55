-- ===== src/Examples/Mutexes.antt =====
-- src/common/mutex.c: thread 0 locks a mutex, thread 1 goes to sleep on it, and thread 0 unlocks.
use upthread.Base.{ℕ, ◌<◌, ◌≡◌, refl, ◌≢◌, ◌⊎◌, none, some, [], arith, pos}
use upthread.Mutex.Ops.{
  Mutex, success, mutex_init, mutex_lock, lock_round, mutex_unlock, MutexAttr, mutexattr_settype,
  acquired, mutex_normal, mutex_recursive,
}
use upthread.Mutex.System.{
  idle, parked, woken, holding, waking, System, Step, lock, unlock, Reach, start, next, move,
  after_lock, after_unlock,
}
use upthread.Mutex.Types.{Again, relock_lem}
use upthread.Mutex.Safety.{mutual_exclusion, mutex_no_lost_wakeup, mutex_no_deadlock}

abbrev fresh : Mutex
fresh = record { attr = record { type = pos 0 }; queue = []; locked = pos 0; owner = none }

abbrev init : System
init = record { mutex = fresh; pc = λ _. idle }

abbrev locked : System
locked = let (r, m) = mutex_lock 0 init.mutex in move 0 (after_lock 0 r) m init

abbrev contended : System
contended = let (r, m) = mutex_lock 1 locked.mutex in move 1 (after_lock 0 r) m locked

abbrev unlocked : System
unlocked = let (t, m) = mutex_unlock contended.mutex in move 0 (after_unlock 0 t) m contended

init-Reach : Reach 2 init
unfolding mutex_init
init-Reach = start fresh fresh none refl

locked-Reach : Reach 2 locked
locked-Reach = next init-Reach (lock (omega arith) refl)

contended-Reach : Reach 2 contended
unfolding mutex_lock lock_round
contended-Reach = next locked-Reach (lock (omega arith) refl)

unlocked-Reach : Reach 2 unlocked
unfolding mutex_lock lock_round
unlocked-Reach = next contended-Reach (unlock 0 (omega arith) refl)

locked-holding : locked.pc 0 ≡ holding 0
unfolding mutex_lock lock_round
locked-holding = refl

contended-parked : contended.pc 1 ≡ parked
unfolding mutex_lock lock_round
contended-parked = refl

unlocked-parked : unlocked.pc 1 ≡ parked
unfolding mutex_lock lock_round mutex_unlock
unlocked-parked = refl

unlocked-free : unlocked.mutex.owner ≡ none
unfolding mutex_lock lock_round mutex_unlock
unlocked-free = refl

locked-idle : locked.pc 1 ≡ idle
unfolding mutex_lock lock_round
locked-idle = refl

mutual_exclusion_example :
    (◌≡◌ {A = ℕ} 0 0) × (locked.mutex.locked ≡ pos 1) × (locked.mutex.owner ≡ some 0)
mutual_exclusion_example = mutual_exclusion locked-Reach 0 0 locked-holding locked-holding

mutex_no_lost_wakeup_example :
    (i : ℕ) × (i < 2) × ((unlocked.pc i ≡ woken) ⊎ ((u : ℕ) × (unlocked.pc i ≡ waking u)))
mutex_no_lost_wakeup_example = mutex_no_lost_wakeup unlocked-Reach 1 unlocked-parked unlocked-free

mutex_no_deadlock_example :
    (i : ℕ) × (i ≢ 1) × (contended.pc i ≢ idle) × ((s' : System) × Step 2 i contended s')
mutex_no_deadlock_example = mutex_no_deadlock contended-Reach 1 contended-parked

abbrev normal : MutexAttr
normal = record { type = mutex_normal }

abbrev recursive_attr : MutexAttr
recursive_attr = record { type = mutex_recursive }

abbrev recursive : Mutex
recursive = record { attr = recursive_attr; queue = []; locked = pos 0; owner = none }

set_recursive : mutexattr_settype (some normal) mutex_recursive ≡ (success, some recursive_attr)
unfolding mutexattr_settype
set_recursive = refl

made_recursive : mutex_init (some fresh) (some recursive_attr) ≡ (success, some recursive)
unfolding mutex_init
made_recursive = refl

relock_lem_example :
    ((mutex_lock 3 recursive).0 ≡ acquired) × Again 3 mutex_recursive (mutex_lock 3 recursive).1
relock_lem_example =
    relock_lem fresh recursive normal recursive_attr mutex_recursive 3 set_recursive made_recursive
