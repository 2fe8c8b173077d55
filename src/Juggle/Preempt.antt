-- ===== src/Juggle/Preempt.antt =====
-- src/juggle/upthread.c, lines 267-280: an alarm takes the processor from a thread.
use upthread.Base.{ℕ, ◌<◌, ◌≡◌, refl, sym, subst, true, false, none, some, List, arith, same, count}
use upthread.Tcb.{blk_paused}
use upthread.Pvcq.State.{Pvcq, Platform, to_state, Pvcq}
use upthread.Pvcq.Queues.{pth_thread_runnable}
use upthread.Pvcq.Threads as Threads
use upthread.Pvcq.Invariant.{IsValid}
use upthread.Pvcq.Placing.{Queues, runnable-Queues}
use upthread.Juggle.Alarm.{alarm_callback}
use upthread.Juggle.Scheduler.{Juggle, goes_off, pth_thread_paused}

paused-Queues :
    (p : Platform) (rounds : List (ℕ → ℕ)) (m t : ℕ) (s : Pvcq)
    → ((u : ℕ) (b : Pvcq) → p.uthread_runnable u b ≡ pth_thread_runnable rounds u b)
    → ((v : ℕ) → count t (s.vc_mgmt v).tqueue ≡ 0)
    → (s.tcb t).preferred_vcq < m
    → IsValid s
    → Queues m t (to_state blk_paused t s) (Threads.pth_thread_paused p t s)
unfolding Threads.pth_thread_paused
paused-Queues p rounds m t s same out below v =
    let paused : IsValid (to_state blk_paused t s) = record {
      sized = v.sized;
      queued_runnable = λ u w h. ground (arith, v.queued_runnable u w h, out w);
    } in
    subst (λ x. Queues m t (to_state blk_paused t s) x) (sym (same t (to_state blk_paused t s)))
      (runnable-Queues m rounds t (to_state blk_paused t s) (ground arith) (λ e. ground arith)
        (ground arith) paused)

-- In a state with valid queues, where parlib's `uthread_runnable` is the scheduler's: an armed alarm
-- that goes off under a running thread, which is in no queue, leaves the vcore without a current
-- thread and the alarm not armed, and the thread is runnable and stands once more than before in the
-- queues, at the tail of the one of the vcore that it prefers; no other thread is queued or lost.
pub goes_off-preempts :
    (p : Platform) (rounds : List (ℕ → ℕ)) (m a t : ℕ) (s : Juggle)
    → ((u : ℕ) (b : Pvcq) → p.uthread_runnable u b ≡ pth_thread_runnable rounds u b)
    → (s.alarms.adata a).armed ≡ true
    → ((v : ℕ) → count t (s.base.vc_mgmt v).tqueue ≡ 0)
    → (s.base.tcb t).preferred_vcq < m
    → IsValid s.base
    → let (current, s') = goes_off p a (some t) s in
      (current ≡ none)
      × ((s'.alarms.adata a).armed ≡ false)
      × Queues m t (to_state blk_paused t s.base) s'.base
unfolding goes_off alarm_callback pth_thread_paused
goes_off-preempts p rounds m a t s same on out below v =
    rw on (refl, ground arith, paused-Queues p rounds m t s.base same out below v)
