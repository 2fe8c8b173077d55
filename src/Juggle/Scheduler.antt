-- ===== src/Juggle/Scheduler.antt =====
-- src/juggle/upthread.c: the scheduler with a queue for each vcore whose threads are preempted. Apart
-- from the alarms its text is that of src/pvcq/upthread.c; so `base` is the state of that scheduler, and
-- what does not touch the alarms is the same function on it.
use upthread.Base.{
  ℕ, Bool, none, some, Option, List, [], ◌∷◌, if◌then◌else◌, ℤ, decr, nonzero, ◌>>◌, assert,
}
use upthread.Tcb.{running}
use upthread.Pvcq.State.{Pvcq, Platform, call, run_uthread, vcore_yield, to_state}
use upthread.Pvcq.Queues
use upthread.Pvcq.Threads.{is_runnable, yield_start}
use upthread.Pvcq.Threads as Threads
use upthread.Juggle.Alarm.{Alarms, start_alarm, disarm, alarm_callback, set_sched_period}

pub record Juggle : Type 0 where
  pub base : Pvcq
  pub alarms : Alarms

abbrev pub on_base : (Pvcq → Pvcq) → Juggle → Juggle
on_base f s = record s { base = f s.base }

abbrev pub with_base {ℓ} : {A : Type ℓ} → Juggle → A × Pvcq → A × Juggle
with_base s (a, b) = (a, record s { base = b })

abbrev pub with_alarms {ℓ} : {A : Type ℓ} → Juggle → A × Alarms → A × Juggle
with_alarms s (a, x) = (a, record s { alarms = x })

-- What `handle_events` and the other vcores do after a round that finds no thread, and the address
-- that malloc gives if the round allocates.
pub record Round : Type 0 where
  pub events : Juggle → Juggle
  pub fresh_a : ℕ

-- The rest of a round that found no thread: what `can_adjust_vcores && !(spin_count--)` guards.
-- `a` is the local `adata`.
unfoldable pub spin : ℕ → ℕ → ℕ → ℤ → Juggle → ℤ × Juggle
unfolding disarm
spin self a fresh_a spin_count s =
    let yielded = record s {
      base = call vcore_yield s.base;
      alarms = disarm self a fresh_a s.alarms;
    } in
    if s.base.can_adjust_vcores
    then (decr spin_count, if nonzero spin_count then s else yielded)
    else (spin_count, s)

module _ (p : Platform) where
  -- `__pth_thread_dequeue` on the vcore `self`
  unfoldable pub thread_dequeue : ℕ → Juggle → Option ℕ × Juggle
  thread_dequeue self s = with_base s (Queues.thread_dequeue p self s.base)

  abbrev pub found_or : Option ℕ × Juggle → (Juggle → Option ℕ × Juggle) → Option ℕ × Juggle
  found_or (none, s) later = later s
  found_or (some t, s) later = (some t, s)

  -- The loop of `pth_sched_entry`; where the list ends the vcore is still looking.
  unfoldable pub sched_loop : List Round → ℕ → ℕ → ℤ → Juggle → Option ℕ × Juggle
  unfolding thread_dequeue spin
  sched_loop [] self a spin_count s = thread_dequeue self s
  sched_loop (round ∷ rounds) self a spin_count s = found_or (thread_dequeue self s) (λ s₁.
      let (spin_count', s₂) = spin self a round.fresh_a spin_count s₁ in
      sched_loop rounds self a spin_count' (round.events s₂))

  -- What follows the loop.
  unfoldable pub run_found : Option ℕ × Juggle → Option (Option ℕ × Juggle)
  run_found (none, s) = some (none, s)
  run_found (some t, s) = do
    assert p.debug (is_runnable (s.base.tcb t).state)
    some (some t, on_base (λ b. call (run_uthread t) (to_state running t b)) s)

  -- After the prologue: the current thread goes on, or the vcore looks for one.
  abbrev pub entered : List Round → Option ℕ → ℕ → ℕ × Juggle → Option (Option ℕ × Juggle)
  entered rounds (some t) self (a, s) = some (some t, on_base (call (run_uthread t)) s)
  entered rounds none self (a, s) = run_found (sched_loop rounds self a s.base.max_spin_count s)

  -- `pth_sched_entry`, with `current_uthread` of the vcore, and what malloc gives in the prologue.
  unfoldable pub pth_sched_entry :
      List Round → ℕ → Option ℕ → ℕ → Juggle → Option (Option ℕ × Juggle)
  unfolding start_alarm sched_loop run_found
  pth_sched_entry rounds fresh_a current self s =
      entered rounds current self (with_alarms s (start_alarm self fresh_a s.alarms))

  -- `pth_thread_paused`
  unfoldable pub pth_thread_paused : ℕ → Juggle → Juggle
  pth_thread_paused t s = on_base (Threads.pth_thread_paused p t) s

  -- `if (current_uthread)` of `alarm_callback`; the result has the new `current_uthread`.
  abbrev pub preempt : Option ℕ → Juggle → Option ℕ × Juggle
  preempt none s = (none, s)
  preempt (some t) s = (none, pth_thread_paused t s)

  -- `alarm_callback`, on a vcore with `current_uthread`.
  unfoldable pub goes_off : ℕ → Option ℕ → Juggle → Option ℕ × Juggle
  unfolding alarm_callback pth_thread_paused
  goes_off a current s =
      let (pauses, s₁) = with_alarms s (alarm_callback a s.alarms) in
      if pauses then preempt current s₁ else (current, s₁)

-- `upthread_set_sched_period` up to the yield of `upthread_yield`: whether it yields.
unfoldable pub change_period : ℕ → ℕ → Juggle → Bool × Juggle
unfolding set_sched_period yield_start
change_period self us s =
    (yield_start self s.base, record s { alarms = set_sched_period us s.alarms })
