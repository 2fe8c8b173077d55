-- ===== src/Juggle/Memory.antt =====
-- src/juggle/upthread.c: who uses the memory of an alarm, and when it is freed.
use upthread.Base.{
  ℕ, ◌≡◌, refl, sym, subst, inl, inr, Bool, true, false, Option, none, some, arith, Bool-cases,
}
use upthread.Juggle.Alarm.{
  Alarms, with_adata, set_armed, new_alarm_data, check_period, arm, set_alarm, disarm,
  alarm_callback, set_sched_period,
}
use upthread.Juggle.Vcores.{
  Pc, renewing, arming, setting, looping, System, Step, enter_first, enter, renew, arms, sets,
  disarms, runs, runs_late, goes_off, new_period, Reach, start, next,
}

-- The data that a vcore holds in a local variable.
abbrev pub local : Pc → Option ℕ
local (arming a) = some a
local (setting a) = some a
local (looping a) = some a
local _ = none

-- A vcore that is about to replace its entry may have an old one.
abbrev pub is_renewing : Pc → Bool
is_renewing renewing = true
is_renewing _ = false

pub record Inv (s : System) : Type 0 where
  pub pending_allocated :
      (a : ℕ) → (s.alarms.adata a).pending ≡ true → (s.alarms.adata a).allocated ≡ true
  pub own :
      (v a : ℕ)
      → is_renewing (s.pc v) ≡ false
      → s.alarms.dtls v ≡ some a
      → ((s.alarms.adata a).allocated ≡ true)
        × ((s.alarms.adata a).pending ≡ true → (s.alarms.adata a).armed ≡ true)
  pub apart :
      (u v a : ℕ)
      → is_renewing (s.pc u) ≡ false
      → is_renewing (s.pc v) ≡ false
      → s.alarms.dtls u ≡ some a
      → s.alarms.dtls v ≡ some a
      → u ≡ v
  pub local_own : (v a : ℕ) → local (s.pc v) ≡ some a → s.alarms.dtls v ≡ some a
  pub setting_armed :
      (v a : ℕ)
      → s.pc v ≡ setting a
      → ((s.alarms.adata a).armed ≡ true) × ((s.alarms.adata a).pending ≡ false)

-- The memory after an alarm went off on data that is armed, and on data that is not.
abbrev after_armed : ℕ → Alarms → Alarms
after_armed a s = set_armed false a (with_adata a (λ d. record d { pending = false }) s)

abbrev after_idle : ℕ → Alarms → Alarms
after_idle a s =
    with_adata a (λ d. record d { allocated = false })
      (with_adata a (λ d. record d { pending = false }) s)

callback-after_armed :
    (a : ℕ) (s : Alarms) → (s.adata a).armed ≡ true → (alarm_callback a s).1 ≡ after_armed a s
unfolding alarm_callback
callback-after_armed a s e = rw e refl

callback-after_idle :
    (a : ℕ) (s : Alarms) → (s.adata a).armed ≡ false → (alarm_callback a s).1 ≡ after_idle a s
unfolding alarm_callback
callback-after_idle a s e = rw e refl

goes_off-Inv :
    (s : System) (a : ℕ)
    → (s.alarms.adata a).pending ≡ true
    → Inv s
    → Inv (record s { alarms = (alarm_callback a s.alarms).1 })
goes_off-Inv s a h inv = elim (Bool-cases (s.alarms.adata a).armed) [
  | inl e ↦
      subst (λ x. Inv (record s { alarms = x })) (sym (callback-after_armed a s.alarms e))
        (record {
          pending_allocated = λ x live. ground (arith, inv.pending_allocated x);
          own = λ u x live mine. ground (arith, inv.own u x);
          apart = inv.apart;
          local_own = inv.local_own;
          setting_armed = λ u x at. ground (arith, inv.setting_armed u x);
        })
  | inr e ↦
      subst (λ x. Inv (record s { alarms = x })) (sym (callback-after_idle a s.alarms e))
        (record {
          pending_allocated = λ x live. ground (arith, inv.pending_allocated x);
          own = λ u x live mine. ground (arith, inv.own u x);
          apart = inv.apart;
          local_own = inv.local_own;
          setting_armed = λ u x at. ground (arith, inv.setting_armed u x);
        })
]

Step-Inv : {s s' : System} → Step s s' → Inv s → Inv s'
unfolding new_alarm_data check_period arm set_alarm disarm alarm_callback set_sched_period
Step-Inv (enter_first v at e) inv = record {
  pending_allocated = inv.pending_allocated;
  own = λ u x live h. ground (arith, inv.own u x);
  apart = λ u w x lu lw hu hw. ground (arith, inv.apart u w x);
  local_own = λ u x h. ground (arith, inv.local_own u x);
  setting_armed = λ u x h. ground (arith, inv.setting_armed u x);
}
Step-Inv (enter v a at e) inv = record {
  pending_allocated = λ x h. ground (arith, inv.pending_allocated x);
  own = λ u x live h. ground (arith, inv.own u x, inv.apart u v a);
  apart = λ u w x lu lw hu hw. ground (arith, inv.apart u w x);
  local_own = λ u x h. ground (arith, inv.local_own u x);
  setting_armed =
      λ u x h. ground (arith, inv.setting_armed u x, inv.local_own u x, inv.apart u v a);
}
Step-Inv (renew v a at free) inv = record {
  pending_allocated = λ x h. ground (arith, inv.pending_allocated x);
  own = λ u x live h. ground (arith, inv.own u x);
  apart = λ u w x lu lw hu hw. ground (arith, inv.apart u w x, inv.own u a, inv.own w a);
  local_own = λ u x h. ground (arith, inv.local_own u x);
  setting_armed = λ u x h. ground (arith, inv.setting_armed u x, inv.local_own u x, inv.own u x);
}
Step-Inv (arms v a at) inv = record {
  pending_allocated = λ x h. ground (arith, inv.pending_allocated x);
  own = λ u x live h. ground (arith, inv.own u x);
  apart = λ u w x lu lw hu hw. ground (arith, inv.apart u w x);
  local_own = λ u x h. ground (arith, inv.local_own u x);
  setting_armed = λ u x h. ground (arith, inv.setting_armed u x, inv.local_own v a, inv.own v a);
}
Step-Inv (sets v a at) inv = record {
  pending_allocated =
      λ x h. ground (arith, inv.pending_allocated x, inv.local_own v a, inv.own v a);
  own = λ u x live h. ground (arith, inv.own u x, inv.setting_armed v a);
  apart = λ u w x lu lw hu hw. ground (arith, inv.apart u w x);
  local_own = λ u x h. ground (arith, inv.local_own u x);
  setting_armed = λ u x h.
      ground (arith, inv.setting_armed u x, inv.local_own u x, inv.local_own v a, inv.apart u v a);
}
Step-Inv (disarms v a b at free) inv = record {
  pending_allocated = λ x h. ground (arith, inv.pending_allocated x);
  own = λ u x live h. ground (arith, inv.own u x, inv.apart u v a, inv.local_own v a);
  apart = λ u w x lu lw hu hw. ground (arith, inv.apart u w x, inv.own u b, inv.own w b);
  local_own = λ u x h. ground (arith, inv.local_own u x);
  setting_armed = λ u x h. ground (
    arith,
    inv.setting_armed u x,
    inv.local_own u x,
    inv.own u x,
    inv.local_own v a,
    inv.apart u v a,
  );
}
Step-Inv (runs v a at) inv = record {
  pending_allocated = inv.pending_allocated;
  own = λ u x live h. ground (arith, inv.own u x);
  apart = λ u w x lu lw hu hw. ground (arith, inv.apart u w x);
  local_own = λ u x h. ground (arith, inv.local_own u x);
  setting_armed = λ u x h. ground (arith, inv.setting_armed u x);
}
Step-Inv (runs_late v at) inv = record {
  pending_allocated = inv.pending_allocated;
  own = λ u x live h. ground (arith, inv.own u x);
  apart = λ u w x lu lw hu hw. ground (arith, inv.apart u w x);
  local_own = λ u x h. ground (arith, inv.local_own u x);
  setting_armed = λ u x h. ground (arith, inv.setting_armed u x);
}
Step-Inv {s = s} (goes_off a h) inv = goes_off-Inv s a h inv
Step-Inv (new_period us) inv = record {
  pending_allocated = inv.pending_allocated;
  own = inv.own;
  apart = inv.apart;
  local_own = inv.local_own;
  setting_armed = inv.setting_armed;
}

Reach-Inv : {period : ℕ} {s : System} → Reach period s → Inv s
Reach-Inv start = record {
  pending_allocated = λ a h. absurd (ground arith);
  own = λ v a live h. absurd (ground arith);
  apart = λ u v a lu lv hu hv. absurd (ground arith);
  local_own = λ v a h. absurd (ground arith);
  setting_armed = λ v a h. absurd (ground arith);
}
Reach-Inv (next r st) = Step-Inv st (Reach-Inv r)

-- However the vcores and the alarms are interleaved: an alarm that goes off finds its data allocated,
-- so no data is freed twice; the data that a vcore works on is allocated; and an alarm is not set while
-- it is pending.
pub alarm_memory :
    {period : ℕ} {s : System}
    → Reach period s
    → ((a : ℕ) → (s.alarms.adata a).pending ≡ true → (s.alarms.adata a).allocated ≡ true)
      × ((v a : ℕ) → local (s.pc v) ≡ some a → (s.alarms.adata a).allocated ≡ true)
      × ((v a : ℕ) → s.pc v ≡ setting a → (s.alarms.adata a).pending ≡ false)
alarm_memory r =
    let inv = Reach-Inv r in
    (
      inv.pending_allocated,
      λ v a h. ground (arith, inv.local_own v a, inv.own v a),
      λ v a h. (inv.setting_armed v a h).1,
    )
