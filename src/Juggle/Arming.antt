-- ===== src/Juggle/Arming.antt =====
-- src/juggle/upthread.c, lines 302-330: the alarm with which a vcore enters its scheduler.
use upthread.Base.{
  ℕ, ◌≡◌, inl, inr, true, ◌&&◌, not, some, arith, ◌==◌, if◌then◌else◌, Bool-cases, Option-cases,
  same,
}
use upthread.Juggle.Alarm.{
  Alarms, new_alarm_data, check_period, arm, set_alarm, own_alarm, start_alarm,
}

-- The vcore has data of its own that is armed and set, and goes off after the period that holds now,
-- which the vcore has noted.
pub record IsTicking (v a : ℕ) (s : Alarms) : Type 0 where
  pub entry : s.dtls v ≡ some a
  pub armed : (s.adata a).armed ≡ true
  pub pending : (s.adata a).pending ≡ true
  pub after : (s.adata a).after ≡ s.preempt_period
  pub period : s.last_preempt_period v ≡ s.preempt_period

-- Data of the vcore that is armed is set, for the period that the vcore has noted.
abbrev pub IsSetUp : ℕ → Alarms → Type 0
IsSetUp v s =
    (a : ℕ)
    → s.dtls v ≡ some a
    → (s.adata a).armed ≡ true
    → ((s.adata a).pending ≡ true) × ((s.adata a).after ≡ s.last_preempt_period v)

armed-IsTicking :
    (v a : ℕ) (s : Alarms)
    → s.dtls v ≡ some a
    → ((s.adata a).armed ≡ true → (s.adata a).pending ≡ true)
    → ((s.adata a).armed ≡ true → s.last_preempt_period v ≡ s.preempt_period)
    → ((s.adata a).armed ≡ true → (s.adata a).after ≡ s.preempt_period)
    → IsTicking v a (let (sets, s₂) = arm v a s in if sets then set_alarm a s₂ else s₂)
unfolding arm set_alarm
armed-IsTicking v a s e set same due = elim (Bool-cases (s.adata a).armed) [
  | inl on ↦
      rw on (record { entry = e; armed = on; pending = set on; after = due on; period = same on })
  | inr off ↦ rw off (record {
    entry = e;
    armed = ground arith;
    pending = ground arith;
    after = ground arith;
    period = ground arith;
  })
]

own_alarm-entry :
    (v fresh_a : ℕ) (s : Alarms)
    → IsSetUp v s
    → let (a, s₁) = own_alarm v fresh_a s in
      (s₁.dtls v ≡ some a)
      × ((s₁.adata a).armed ≡ true → (s₁.adata a).pending ≡ true)
      × ((s₁.adata a).armed ≡ true → s₁.last_preempt_period v ≡ s₁.preempt_period)
      × ((s₁.adata a).armed ≡ true → (s₁.adata a).after ≡ s₁.preempt_period)
unfolding own_alarm new_alarm_data check_period
own_alarm-entry v fresh_a s set = elim (Option-cases (s.dtls v)) [
  | inl e ↦
      rw (e, own_alarm)
        (
          ground arith,
          λ on. absurd (ground arith),
          λ on. absurd (ground arith),
          λ on. absurd (ground arith),
        )
  | inr (a, e) ↦
      elim (Bool-cases ((s.adata a).armed && not (s.last_preempt_period v == s.preempt_period))) [
        | inl k ↦
            rw (e, k, own_alarm)
              (
                ground arith,
                λ on. absurd (ground arith),
                λ on. absurd (ground arith),
                λ on. absurd (ground arith),
              )
        | inr k ↦
            rw (e, k, own_alarm)
              (e, λ on. (set a e on).0, λ on. ground arith, λ on. ground (arith, set a e on))
      ]
]

-- If the data of the vcore, where it has some and it is armed, is set to go off after the period that
-- the vcore has noted, then the prologue of `pth_sched_entry` leaves the vcore with data of its own
-- that is armed and set to go off after the period that holds now, which the vcore has noted, whether
-- there was no data, a stale period, or nothing to do.
pub start_alarm-IsTicking :
    (v fresh_a : ℕ) (s : Alarms)
    → IsSetUp v s
    → let (a, s') = start_alarm v fresh_a s in IsTicking v a s'
unfolding start_alarm
start_alarm-IsTicking v fresh_a s set =
    let (e, on, same, due) = own_alarm-entry v fresh_a s set in
    let (a, s₁) = own_alarm v fresh_a s in armed-IsTicking v a s₁ e on same due
