-- ===== src/Examples/Condvars.antt =====
-- src/common/condvar.c: thread 0 locks the mutex and waits on the condition variable; thread 1 then
-- locks the mutex and is about to signal.
use upthread.Base.{ℕ, ◌+◌, ◌≡◌, refl, inl, true, none, some, [], arith, count, pos}
use upthread.Base.Sums.{update, total}
use upthread.Mutex.Ops.{Mutex, mutex_init, mutex_lock, mutex_unlock, lock_round}
use upthread.Mutex.System as MutexSystem
use upthread.Condvar.Ops.{Condvar, cond_init}
use upthread.Condvar.System.{
  idle, entering, releasing, sleeping, signalling, System, after_lock, after_release, move,
  enter_queue, lock, wait, queues, releases, leaves, signal, Reach, start, next, view,
}
use upthread.Condvar.Invariant.{rouses_it, is_queued}
use upthread.Condvar.Progress.{
  IsBusy, CanStep, cond_refines_mutex, cond_no_lost_wakeup, cond_no_deadlock,
}

abbrev mutex : Mutex
mutex = record { attr = record { type = pos 0 }; queue = []; locked = pos 0; owner = none }

abbrev cond : Condvar
cond = record { waiting_mutex = none; queue = [] }

abbrev init : System
init = record { mutex = mutex; cond = cond; lock = none; pc = λ _. idle }

abbrev locked : System
locked = let (r, m) = mutex_lock 0 init.mutex in move 0 (after_lock r) m init

abbrev waits : System
waits = record locked { pc = update locked.pc 0 entering }

abbrev queued : System
queued = record waits {
  cond = enter_queue 0 waits.cond;
  lock = some 0;
  pc = update waits.pc 0 releasing;
}

abbrev released : System
released = let (o, m) = mutex_unlock queued.mutex in move 0 (after_release o) m queued

abbrev asleep : System
asleep = record released { lock = none; pc = update released.pc 0 sleeping }

abbrev other : System
other = let (r, m) = mutex_lock 1 asleep.mutex in move 1 (after_lock r) m asleep

abbrev signals_next : System
signals_next = record other { pc = update other.pc 1 (signalling true) }

signals_next-Reach : Reach 2 signals_next
unfolding mutex_init cond_init mutex_lock mutex_unlock lock_round
signals_next-Reach =
    next {i = 1}
      (next {i = 1}
        (next {i = 0}
          (next {i = 0}
            (next {i = 0}
              (next {i = 0}
                (next {i = 0} (start mutex mutex none cond cond refl refl)
                  (lock (omega arith) (inl refl)))
                (wait (omega arith) refl))
              (queues (omega arith) refl refl))
            (releases (omega arith) refl refl))
          (leaves (omega arith) refl))
        (lock (omega arith) (inl refl)))
      (signal true (omega arith) refl)

signals_next-IsBusy : IsBusy (signals_next.pc 1)
signals_next-IsBusy = (λ e. ground arith, λ e. ground arith)

cond_refines_mutex_example : MutexSystem.Reach 2 (view signals_next)
cond_refines_mutex_example = cond_refines_mutex signals_next-Reach

cond_no_lost_wakeup_example :
    count 0 signals_next.cond.queue + total (rouses_it 0) 2 signals_next.pc
    ≡ is_queued (signals_next.pc 0)
cond_no_lost_wakeup_example = cond_no_lost_wakeup signals_next-Reach 0

cond_no_deadlock_example : (k : ℕ) × IsBusy (signals_next.pc k) × CanStep 2 k signals_next
cond_no_deadlock_example = cond_no_deadlock signals_next-Reach 1 signals_next-IsBusy
