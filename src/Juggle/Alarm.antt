-- ===== src/Juggle/Alarm.antt =====
-- src/juggle/upthread.c, lines 39-40, 253-297, 302-330 and 348-352: the alarms by which a vcore takes its
-- processor back from a thread.
use upthread.Base.{ℕ, Bool, true, false, ◌&&◌, not, Option, none, some, ◌==◌, if◌then◌else◌}
use upthread.Base.Sums.{update}

-- `struct alarm_data`, with whether the memory is allocated, and of the waiter in it the time after
-- which it goes off, and whether it is set with parlib, which will call `alarm_callback` on it once
-- then. The spinlock of the waiter makes each section
-- one function.
pub record AlarmData : Type 0 where
  pub armed : Bool
  pub allocated : Bool
  pub after : ℕ
  pub pending : Bool

-- `__preempt_period`, the `last_preempt_period` of each vcore, the entry under `alarm_dtls_key` of each
-- vcore, and the memory.
pub record Alarms : Type 0 where
  pub preempt_period : ℕ
  pub last_preempt_period : ℕ → ℕ
  pub dtls : ℕ → Option ℕ
  pub adata : ℕ → AlarmData

abbrev pub with_adata : ℕ → (AlarmData → AlarmData) → Alarms → Alarms
with_adata a f s = record s { adata = update s.adata a (f (s.adata a)) }

abbrev pub set_armed : Bool → ℕ → Alarms → Alarms
set_armed b a s = with_adata a (λ d. record d { armed = b }) s

-- `init_adata` on memory that malloc gave.
abbrev pub fresh : AlarmData
fresh = record { armed = false; allocated = true; after = 0; pending = false }

-- `__new_alarm_data` on the vcore `v`, with the address that malloc gave.
unfoldable pub new_alarm_data : ℕ → ℕ → Alarms → Alarms
new_alarm_data v a s = record s { adata = update s.adata a fresh; dtls = update s.dtls v (some a) }

-- The section of `pth_sched_entry` on the vcore's alarm: whether it is to be replaced.
unfoldable pub check_period : ℕ → ℕ → Alarms → Bool × Alarms
check_period v a s =
    if (s.adata a).armed && not (s.last_preempt_period v == s.preempt_period)
    then (true, set_armed false a s)
    else (false, s)

-- `set_awaiter_rel`
abbrev pub set_awaiter_rel : ℕ → ℕ → Alarms → Alarms
set_awaiter_rel a us s = with_adata a (λ d. record d { after = us }) s

-- `if (!adata->armed)`, up to the call of `set_alarm`: whether it is made.
unfoldable pub arm : ℕ → ℕ → Alarms → Bool × Alarms
arm v a s = if (s.adata a).armed then (false, s) else (
  true,
  set_awaiter_rel a s.preempt_period (
      set_armed true a
        (record s { last_preempt_period = update s.last_preempt_period v s.preempt_period })),
)

-- `set_alarm`
unfoldable pub set_alarm : ℕ → Alarms → Alarms
set_alarm a s = with_adata a (λ d. record d { pending = true }) s

-- The section before `vcore_yield`.
unfoldable pub disarm : ℕ → ℕ → ℕ → Alarms → Alarms
unfolding new_alarm_data
disarm v a fresh_a s = new_alarm_data v fresh_a (set_armed false a s)

-- `alarm_callback` on the data: whether the thread that runs is paused. What is not armed is freed.
unfoldable pub alarm_callback : ℕ → Alarms → Bool × Alarms
alarm_callback a s =
    let s₁ = with_adata a (λ d. record d { pending = false }) s in
    if (s.adata a).armed
    then (true, set_armed false a s₁)
    else (false, with_adata a (λ d. record d { allocated = false }) s₁)

-- `upthread_set_sched_period` before its call of `upthread_yield`.
unfoldable pub set_sched_period : ℕ → Alarms → Alarms
set_sched_period us s = record s { preempt_period = us }

-- `get_dtls(alarm_dtls_key)` and the two tests after it: the data that the vcore goes on with.
-- `fresh_a` is what malloc gives if it is called.
unfoldable pub own_alarm : ℕ → ℕ → Alarms → ℕ × Alarms
unfolding new_alarm_data check_period
own_alarm v fresh_a s = elim (s.dtls v) [
  | none ↦ (fresh_a, new_alarm_data v fresh_a s)
  | some a ↦
      let (replace, s₁) = check_period v a s in
      if replace then (fresh_a, new_alarm_data v fresh_a s₁) else (a, s₁)
]

-- The prologue of `pth_sched_entry`, where no other vcore and no alarm comes in between.
unfoldable pub start_alarm : ℕ → ℕ → Alarms → ℕ × Alarms
unfolding own_alarm arm set_alarm
start_alarm v fresh_a s =
    let (a, s₁) = own_alarm v fresh_a s in
    let (sets, s₂) = arm v a s₁ in (a, if sets then set_alarm a s₂ else s₂)
