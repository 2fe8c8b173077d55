-- ===== src/Examples/Alarms.antt =====
-- src/juggle/upthread.c: vcores enter their scheduler, and an alarm goes off.
use upthread.Base.{ℕ, ◌≡◌, refl, true, false, Option, none, some, [], ◌∷◌, arith, count}
use upthread.Tcb.{blk_paused}
use upthread.Pvcq.State.{Platform, to_state}
use upthread.Pvcq.Queues.{pth_thread_runnable}
use upthread.Pvcq.Placing.{Queues}
use upthread.Pvcq.Entry.{IsRunning}
use upthread.Juggle.Alarm.{Alarms, new_alarm_data, arm, start_alarm}
use upthread.Juggle.Vcores.{
  System, to, renewing, arming, setting, after_arm, initial, enter_first, renew, arms, Reach, start,
  next,
}
use upthread.Juggle.Memory.{local, alarm_memory}
use upthread.Juggle.Arming.{IsTicking, start_alarm-IsTicking}
use upthread.Juggle.Scheduler.{Juggle, Round, goes_off, pth_sched_entry}
use upthread.Juggle.Entry.{juggle_entry-IsRunning}
use upthread.Juggle.Preempt.{goes_off-preempts}
use upthread.Examples.VcoreQueues.{platform, state, state-IsValid}

abbrev entered : System
entered = to 0 renewing (initial 10).alarms (initial 10)

abbrev renewed : System
renewed = to 0 (arming 7) (new_alarm_data 0 7 entered.alarms) entered

abbrev set_next : System
set_next = let (sets, x) = arm 0 7 renewed.alarms in to 0 (after_arm 7 sets) x renewed

set_next-Reach : Reach 10 set_next
unfolding new_alarm_data arm
set_next-Reach =
    next (next (next start (enter_first 0 refl refl)) (renew 0 7 refl refl)) (arms 0 7 refl)

alarm_memory_example :
    ((a : ℕ)
      → (set_next.alarms.adata a).pending ≡ true
      → (set_next.alarms.adata a).allocated ≡ true)
    × ((v a : ℕ) → local (set_next.pc v) ≡ some a → (set_next.alarms.adata a).allocated ≡ true)
    × ((v a : ℕ) → set_next.pc v ≡ setting a → (set_next.alarms.adata a).pending ≡ false)
alarm_memory_example = alarm_memory set_next-Reach

-- Vcore 0 has data 7, which is armed and set for a period that has changed.
abbrev stale : Alarms
stale = record {
  preempt_period = 20;
  last_preempt_period = λ v. 10;
  dtls = λ v. some 7;
  adata = λ a. record { armed = true; allocated = true; after = 10; pending = true };
}

start_alarm-IsTicking_example : let (a, s') = start_alarm 0 8 stale in IsTicking 0 a s'
start_alarm-IsTicking_example = start_alarm-IsTicking 0 8 stale (λ a e on. (refl, refl))

abbrev juggle : Juggle
juggle = record { base = state; alarms = stale }

abbrev round : Round
round = record { events = λ s. s; fresh_a = 9 }

juggle_entry-IsRunning_example :
    (o : Option ℕ) × (s' : Juggle) × (pth_sched_entry platform (round ∷ []) 8 none 0 juggle
      ≡ some (o, s'))
    × ((t : ℕ) → o ≡ some t → IsRunning 0 t s'.base)
juggle_entry-IsRunning_example =
    juggle_entry-IsRunning platform 0 (omega arith) (omega arith) (omega arith) (round ∷ []) 8
      juggle ((λ s w. w), tt) state-IsValid

-- With parlib's entry to the scheduler as it is documented.
abbrev wired : Platform
wired = record platform { uthread_runnable = pth_thread_runnable [] }

nowhere : (v : ℕ) → count 9 (state.vc_mgmt v).tqueue ≡ 0
unfolding count
nowhere v = ground arith

goes_off-preempts_example :
    let (current, s') = goes_off wired 7 (some 9) juggle in
    (current ≡ none)
    × ((s'.alarms.adata 7).armed ≡ false)
    × Queues 2 9 (to_state blk_paused 9 state) s'.base
goes_off-preempts_example =
    goes_off-preempts wired [] 2 7 9 juggle (λ u b. refl) refl nowhere (omega arith) state-IsValid
