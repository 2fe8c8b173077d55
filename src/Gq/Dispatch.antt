-- ===== src/Gq/Dispatch.antt =====
-- src/gq/upthread.c: what `pth_sched_entry` gives a vcore.
use upthread.Base.{
  ℕ, ◌≡◌, refl, subst, Option, none, some, List, [], ◌∷◌, arith, assert-true, ==_refl, some_inj,
  count-cons, ℤ,
}
use upthread.Tcb.{runnable}
use upthread.Gq.State.{Gq, Platform, call, run_uthread}
use upthread.Gq.Schedule.{
  activate, take_ready, spin, or_else, sched_loop, is_runnable, run_found, pth_sched_entry,
}
use upthread.Gq.Invariant.{IsValid, IsActive, take_ready_nil, take_ready_cons, activate-IsValid}

-- What happens between the rounds keeps the state valid.
abbrev pub Preserve : List (Gq → Gq) → Type 0
Preserve [] = Unit {0}
Preserve (f ∷ fs) = ((s : Gq) → IsValid s → IsValid (f s)) × Preserve fs

-- A thread in hand is active and may run.
abbrev pub IsDispatched : ℕ → Gq → Type 0
IsDispatched t s = IsActive t s × ((s.tcb t).state ≡ runnable)

record Finds (r : Option ℕ × Gq) : Type 0 where
  valid : IsValid r.1
  dispatched : (t : ℕ) → r.0 ≡ some t → IsDispatched t r.1

take_ready-Finds : (s : Gq) → IsValid s → Finds (take_ready s)
take_ready-Finds s v = go s.ready_queue refl
  where
    go : (q : List ℕ) → s.ready_queue ≡ q → Finds (take_ready s)
    go [] e =
        rw (take_ready_nil s e) (record { valid = v; dispatched = λ t h. absurd (ground arith) })
    go (u ∷ rest) e =
        let a = activate-IsValid u rest s e v in
        rw (take_ready_cons u rest s e) (record {
          valid = a.0;
          dispatched = λ t h.
              subst (λ x. IsDispatched x (activate u rest s)) (some_inj h)
                (a.1, v.ready_runnable u (ground (arith, count-cons u u rest, ==_refl u)));
        })

spin-IsValid : (n : ℤ) (s : Gq) → IsValid s → IsValid (spin n s).1
unfolding spin
spin-IsValid n s v = record {
  ready_counted = ground (arith, v.ready_counted);
  active_counted = ground (arith, v.active_counted);
  once = λ t. ground (arith, v.once t);
  ready_runnable = λ t h. ground (arith, v.ready_runnable t);
}

or_else-Finds : (r later : Option ℕ × Gq) → Finds r → Finds later → Finds (or_else r later)
or_else-Finds (none, s) later h k = k
or_else-Finds (some t, s) later h k = h

sched_loop-Finds :
    (rounds : List (Gq → Gq)) (n : ℤ) (s : Gq)
    → Preserve rounds
    → IsValid s
    → Finds (sched_loop rounds n s)
unfolding sched_loop
sched_loop-Finds [] n s keep v = take_ready-Finds s v
sched_loop-Finds (events ∷ rounds) n s (keep, keeps) v = or_else-Finds _ _ (take_ready-Finds s v) (
    sched_loop-Finds rounds (spin n s).0 (events (spin n s).1) keeps
      (keep (spin n s).1 (spin-IsValid n s v)))

-- What a vcore has after `pth_sched_entry`.
abbrev pub Runs : Platform → List (Gq → Gq) → Gq → Type 0
Runs p rounds s =
    (r : Option ℕ) × (s' : Gq) × (pth_sched_entry p rounds none s ≡ some (r, s'))
    × IsValid s'
    × ((t : ℕ) → r ≡ some t → IsDispatched t s')

run_found-lem :
    (p : Platform) (r : Option ℕ × Gq)
    → Finds r
    → (o : Option ℕ) × (s' : Gq) × (run_found p r ≡ some (o, s'))
      × IsValid s'
      × ((t : ℕ) → o ≡ some t → IsDispatched t s')
run_found-lem p (none, s) f = (none, s, refl, f.valid, f.dispatched)
run_found-lem p (some t, s) f =
    let d = f.dispatched t refl in
    (
      some t,
      call (run_uthread t) s,
      ground (arith, d.1, assert-true p.debug (is_runnable (s.tcb t).state)),
      record {
        ready_counted = f.valid.ready_counted;
        active_counted = f.valid.active_counted;
        once = f.valid.once;
        ready_runnable = f.valid.ready_runnable;
      },
      f.dispatched,
    )

-- From a valid state, and where the events and the other vcores keep it valid, `pth_sched_entry`
-- never fails its assertion, keeps the state valid, and the thread that it runs is active and in
-- state UPTH_RUNNABLE.
pub sched_entry-Runs :
    (p : Platform) (rounds : List (Gq → Gq)) (s : Gq)
    → Preserve rounds
    → IsValid s
    → Runs p rounds s
unfolding pth_sched_entry
sched_entry-Runs p rounds s keep v =
    run_found-lem p (sched_loop rounds s.max_spin_count s)
      (sched_loop-Finds rounds s.max_spin_count s keep v)
