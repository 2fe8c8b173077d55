-- ===== src/Juggle/Entry.antt =====
-- src/juggle/upthread.c, lines 302-362: what `pth_sched_entry` gives a vcore.
use upthread.Base.{ℕ, ◌≤◌, ◌<◌, ◌≡◌, refl, Option, none, some, List, [], ◌∷◌, arith, assert-true, ℤ}
use upthread.Tcb.{running}
use upthread.Pvcq.State.{Platform, call, run_uthread, to_state}
use upthread.Pvcq.Threads.{is_runnable}
use upthread.Pvcq.Invariant.{IsValid, IsTaken}
use upthread.Pvcq.Dequeue.{thread_dequeue-Takes}
use upthread.Pvcq.Entry.{IsRunning}
use upthread.Juggle.Alarm.{start_alarm}
use upthread.Juggle.Scheduler.{
  Juggle, Round, on_base, spin, thread_dequeue, found_or, sched_loop, run_found, pth_sched_entry,
}

-- What happens between the rounds keeps the queues valid.
abbrev pub Preserve : List Round → Type 0
Preserve [] = Unit {0}
Preserve (round ∷ rounds) =
    ((s : Juggle) → IsValid s.base → IsValid (round.events s).base) × Preserve rounds

spin-IsValid :
    (self a fresh_a : ℕ) (n : ℤ) (s : Juggle)
    → IsValid s.base
    → IsValid (spin self a fresh_a n s).1.base
unfolding spin
spin-IsValid self a fresh_a n s v = record {
  sized = λ x. ground (arith, v.sized x);
  queued_runnable = λ t x h. ground (arith, v.queued_runnable t x);
}

abbrev Finds : ℕ → Option ℕ × Juggle → Type 0
Finds self r = (t : ℕ) → r.0 ≡ some t → IsTaken self t r.1.base

run_found-IsRunning :
    (p : Platform) (self : ℕ) (r : Option ℕ × Juggle)
    → Finds self r
    → (o : Option ℕ) × (s' : Juggle) × (run_found p r ≡ some (o, s'))
      × ((t : ℕ) → o ≡ some t → IsRunning self t s'.base)
unfolding run_found
run_found-IsRunning p self (none, s) f = (none, s, refl, λ t h. absurd (ground arith))
run_found-IsRunning p self (some t, s) f =
    let d = f t refl in
    (
      some t,
      on_base (λ b. call (run_uthread t) (to_state running t b)) s,
      ground (arith, d.0, assert-true p.debug (is_runnable (s.base.tcb t).state)),
      λ u h. ground (arith, d.1),
    )

module _ (p : Platform) (self : ℕ) (ls : self < p.max_vcores) (some_vcore : 0 < p.num_vcores)
    (all_vcores : p.num_vcores ≤ p.max_vcores) where
  found_or-Finds :
      (r : Option ℕ × Juggle) (f : Juggle → Option ℕ × Juggle)
      → Finds self r
      → Finds self (f r.1)
      → Finds self (found_or p r f)
  found_or-Finds (none, s) f h k = k
  found_or-Finds (some t, s) f h k = h

  sched_loop-Finds :
      (rounds : List Round) (a : ℕ) (n : ℤ) (s : Juggle)
      → Preserve rounds
      → IsValid s.base
      → Finds self (sched_loop p rounds self a n s)
  unfolding sched_loop thread_dequeue
  sched_loop-Finds [] a n s keep v =
      (thread_dequeue-Takes p self ls some_vcore all_vcores s.base v).taken
  sched_loop-Finds (round ∷ rounds) a n s (keep, keeps) v =
      let k = thread_dequeue-Takes p self ls some_vcore all_vcores s.base v in
      let s₁ = (thread_dequeue p self s).1 in
      let (n', s₂) = spin self a round.fresh_a n s₁ in
      found_or-Finds _ _ k.taken (
        sched_loop-Finds rounds a n' (round.events s₂) keeps
          (keep s₂ (spin-IsValid self a round.fresh_a n s₁ k.valid)))

  -- From a state whose queues are valid, with at least one and at most max_vcores vcores, and where the
  -- events and the other vcores keep the queues valid, `pth_sched_entry` of a vcore that runs nothing
  -- never fails its assertion, and a thread that it finds is then in state UPTH_RUNNING and prefers
  -- the vcore.
  pub juggle_entry-IsRunning :
      (rounds : List Round) (fresh_a : ℕ) (s : Juggle)
      → Preserve rounds
      → IsValid s.base
      → (o : Option ℕ) × (s' : Juggle) × (pth_sched_entry p rounds fresh_a none self s
          ≡ some (o, s'))
        × ((t : ℕ) → o ≡ some t → IsRunning self t s'.base)
  unfolding pth_sched_entry
  juggle_entry-IsRunning rounds fresh_a s keep v =
      let (a, alarms) = start_alarm self fresh_a s.alarms in
      run_found-IsRunning p self _
        (sched_loop-Finds rounds a s.base.max_spin_count (record s { alarms = alarms }) keep v)
