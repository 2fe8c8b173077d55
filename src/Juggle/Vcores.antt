-- ===== src/Juggle/Vcores.antt =====
-- The vcores of src/juggle/upthread.c and the alarms of parlib, interleaved in any order: a step is one
-- section under the spinlock of an alarm, one of the accesses outside it, or one alarm that goes off.
use upthread.Base.{ℕ, ◌≡◌, Bool, true, false, none, some}
use upthread.Base.Sums.{update}
use upthread.Juggle.Alarm.{
  Alarms, new_alarm_data, check_period, arm, set_alarm, disarm, alarm_callback, set_sched_period,
}

-- Where a vcore stands in `pth_sched_entry`; `a` is its local `adata`.
pub data Pc : Type 0 where
  running : Pc  -- it runs a thread, or has yielded itself
  renewing : Pc  -- before `__new_alarm_data`
  arming : (a : ℕ) → Pc  -- before `if (!adata->armed)`
  setting : (a : ℕ) → Pc  -- before `set_alarm`
  looping : (a : ℕ) → Pc  -- in the loop, where it has not called `vcore_yield`
  yielded : Pc  -- in the loop, after that

pub record System : Type 0 where
  pub alarms : Alarms
  pub pc : ℕ → Pc

abbrev pub to : ℕ → Pc → Alarms → System → System
to v p a s = record { alarms = a; pc = update s.pc v p }

abbrev pub after_check : ℕ → Bool → Pc
after_check a true = renewing
after_check a false = arming a

abbrev pub after_arm : ℕ → Bool → Pc
after_arm a true = setting a
after_arm a false = looping a

-- malloc gives memory that is not allocated. `spin_count` comes to 0 once in a call, so the section
-- before `vcore_yield` runs once.
pub data Step (s : System) : System → Type 0 where
  enter_first :
      (v : ℕ) → s.pc v ≡ running → s.alarms.dtls v ≡ none → Step s (to v renewing s.alarms s)
  enter :
      (v a : ℕ)
      → s.pc v ≡ running
      → s.alarms.dtls v ≡ some a
      → Step s (let (replace, x) = check_period v a s.alarms in to v (after_check a replace) x s)
  renew :
      (v a : ℕ)
      → s.pc v ≡ renewing
      → (s.alarms.adata a).allocated ≡ false
      → Step s (to v (arming a) (new_alarm_data v a s.alarms) s)
  arms :
      (v a : ℕ)
      → s.pc v ≡ arming a
      → Step s (let (sets, x) = arm v a s.alarms in to v (after_arm a sets) x s)
  sets : (v a : ℕ) → s.pc v ≡ setting a → Step s (to v (looping a) (set_alarm a s.alarms) s)
  disarms :
      (v a fresh_a : ℕ)
      → s.pc v ≡ looping a
      → (s.alarms.adata fresh_a).allocated ≡ false
      → Step s (to v yielded (disarm v a fresh_a s.alarms) s)
  runs : (v a : ℕ) → s.pc v ≡ looping a → Step s (to v running s.alarms s)
  runs_late : (v : ℕ) → s.pc v ≡ yielded → Step s (to v running s.alarms s)
  goes_off :
      (a : ℕ)
      → (s.alarms.adata a).pending ≡ true
      → Step s (record s { alarms = (alarm_callback a s.alarms).1 })
  new_period : (us : ℕ) → Step s (record s { alarms = set_sched_period us s.alarms })

abbrev pub initial : ℕ → System
initial period = record {
  alarms = record {
    preempt_period = period;
    last_preempt_period = λ _. period;
    dtls = λ _. none;
    adata = λ _. record { armed = false; allocated = false; after = 0; pending = false };
  };
  pc = λ _. running;
}

pub data Reach (period : ℕ) : System → Type 0 where
  start : Reach period (initial period)
  next : {s s' : System} → Reach period s → Step s s' → Reach period s'
