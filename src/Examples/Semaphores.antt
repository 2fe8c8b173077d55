-- ===== src/Examples/Semaphores.antt =====
-- src/common/semaphore.c: thread 0 waits on a semaphore that is 0, sleeps, and thread 1 posts.
use upthread.Base.{
  ℕ, suc, ◌+◌, ◌≤◌, ◌≡◌, refl, ◌≢◌, true, false, ◌||◌, none, some, [], arith, if◌then◌else◌,
  insert_tail, count, pos, eq_int, pos_part, int_max,
}
use upthread.Base.Sums.{update, total}
use upthread.Semaphore.Ops.{Sem, sem_init, loaded, count_waiter, add_value}
use upthread.Semaphore.System.{
  Pc, idle, trying, entering, yielding, checked, asleep, posted, System, Step, wait, load, register,
  enter, check, sleep, post, Reach, start, next, to, after_load, is_zero,
}
use upthread.Semaphore.Invariant.{pending}
use upthread.Semaphore.Refinement.{CountReach, view, sem_refines}
use upthread.Semaphore.Safety.{units_conserved, sem_no_lost_wakeup, sem_no_deadlock}

abbrev zero_sem : Sem
zero_sem = record { value = pos 0; nwaiters = pos 0 }

abbrev at_place : Pc → Sem → System
at_place p sem = record {
  sem = sem;
  queue = [];
  lock = none;
  pc = update (λ _. idle) 0 p;
  taken = 0;
  given = 0;
  wrapped = false;
}

abbrev init : System
init = record {
  sem = zero_sem;
  queue = [];
  lock = none;
  pc = λ _. idle;
  taken = 0;
  given = 0;
  wrapped = false;
}

abbrev waited : System
waited = to 0 (trying false) init

abbrev failed : System
failed = to 0 (after_load false waited.sem.value (loaded waited.sem.value)) waited

abbrev registered : System
registered = record (to 0 entering failed) {
  sem = count_waiter failed.sem;
  wrapped = failed.wrapped || eq_int failed.sem.nwaiters int_max;
}

abbrev entered : System
entered = to 0 (if is_zero registered then yielding else trying true) registered

abbrev tested : System
tested =
    if is_zero entered
    then record (to 0 checked entered) { lock = some 0 }
    else to 0 (trying true) entered

abbrev sleeping : System
sleeping = record (to 0 asleep tested) { queue = insert_tail tested.queue 0; lock = none }

abbrev signalled : System
signalled = record (to 1 posted sleeping) {
  sem = add_value sleeping.sem;
  given = suc sleeping.given;
  wrapped = sleeping.wrapped || eq_int sleeping.sem.value int_max;
}

sleeping-Reach : Reach 2 (pos 0) sleeping
unfolding sem_init count_waiter
sleeping-Reach =
    next
      (next
        (next
          (next
            (next (next (start zero_sem zero_sem refl) (wait (omega arith) refl))
              (load false (omega arith) refl))
            (register (omega arith) refl))
          (enter (omega arith) refl))
        (check (omega arith) refl refl))
      (sleep (omega arith) refl)

signalled-Reach : Reach 2 (pos 0) signalled
unfolding count_waiter
signalled-Reach = next sleeping-Reach (post (omega arith) refl)

signalled-queued : 1 ≤ count 0 signalled.queue
unfolding count count_waiter
signalled-queued = omega arith

signalled-value : signalled.sem.value ≡ pos 1
unfolding add_value count_waiter
signalled-value = refl

signalled-calm : signalled.wrapped ≡ false
unfolding add_value count_waiter
signalled-calm = refl

units_conserved_example :
    (v : ℕ) × (signalled.sem.value ≡ pos v) × (v + signalled.taken ≡ 0 + signalled.given)
units_conserved_example = units_conserved signalled-Reach signalled-calm

sem_no_lost_wakeup_example : pos_part signalled.sem.value ≤ total pending 2 signalled.pc
sem_no_lost_wakeup_example = sem_no_lost_wakeup signalled-Reach signalled-calm 0 signalled-queued

sem_no_deadlock_example :
    (i : ℕ) × (signalled.pc i ≢ asleep)
    × (signalled.pc i ≢ idle)
    × ((s' : System) × Step 2 i signalled s')
sem_no_deadlock_example =
    sem_no_deadlock signalled-Reach signalled-calm 0 signalled-queued signalled-value

sem_refines_example : CountReach 0 (view signalled)
sem_refines_example = sem_refines signalled-Reach signalled-calm
