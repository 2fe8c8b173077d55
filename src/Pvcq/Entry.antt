-- ===== src/Pvcq/Entry.antt =====
-- src/pvcq/upthread.c: what `pth_sched_entry` gives a vcore.
use upthread.Base.{ℕ, ◌≤◌, ◌<◌, ◌≡◌, refl, Option, none, some, List, [], ◌∷◌, arith, assert-true, ℤ}
use upthread.Tcb.{running}
use upthread.Pvcq.State.{Pvcq, Platform, call, run_uthread, to_state}
use upthread.Pvcq.Queues.{thread_dequeue}
use upthread.Pvcq.Threads.{spin, is_runnable, found_or, sched_loop, run_found, pth_sched_entry}
use upthread.Pvcq.Invariant.{IsValid, IsTaken}
use upthread.Pvcq.Dequeue.{thread_dequeue-Takes}

-- What happens between the rounds keeps the state valid.
abbrev pub Preserve : List (Pvcq → Pvcq) → Type 0
Preserve [] = Unit {0}
Preserve (f ∷ fs) = ((s : Pvcq) → IsValid s → IsValid (f s)) × Preserve fs

-- A thread that runs, and that prefers the vcore.
abbrev pub IsRunning : ℕ → ℕ → Pvcq → Type 0
IsRunning self t s = ((s.tcb t).state ≡ running) × ((s.tcb t).preferred_vcq ≡ self)

spin-IsValid : (n : ℤ) (s : Pvcq) → IsValid s → IsValid (spin n s).1
unfolding spin
spin-IsValid n s v = record {
  sized = λ x. ground (arith, v.sized x);
  queued_runnable = λ t x h. ground (arith, v.queued_runnable t x);
}

abbrev Finds : ℕ → Option ℕ × Pvcq → Type 0
Finds self r = (t : ℕ) → r.0 ≡ some t → IsTaken self t r.1

run_found-IsRunning :
    (p : Platform) (self : ℕ) (r : Option ℕ × Pvcq)
    → Finds self r
    → (o : Option ℕ) × (s' : Pvcq) × (run_found p r ≡ some (o, s'))
      × ((t : ℕ) → o ≡ some t → IsRunning self t s')
unfolding run_found
run_found-IsRunning p self (none, s) f = (none, s, refl, λ t h. absurd (ground arith))
run_found-IsRunning p self (some t, s) f =
    let d = f t refl in
    (
      some t,
      call (run_uthread t) (to_state running t s),
      ground (arith, d.0, assert-true p.debug (is_runnable (s.tcb t).state)),
      λ u h. ground (arith, d.1),
    )

module _ (p : Platform) (self : ℕ) (ls : self < p.max_vcores) (some_vcore : 0 < p.num_vcores)
    (all_vcores : p.num_vcores ≤ p.max_vcores) where
  found_or-Finds :
      (r : Option ℕ × Pvcq) (f : Pvcq → Option ℕ × Pvcq)
      → Finds self r
      → Finds self (f r.1)
      → Finds self (found_or p r f)
  found_or-Finds (none, s) f h k = k
  found_or-Finds (some t, s) f h k = h

  sched_loop-Finds :
      (rounds : List (Pvcq → Pvcq)) (n : ℤ) (s : Pvcq)
      → Preserve rounds
      → IsValid s
      → Finds self (sched_loop p rounds self n s)
  unfolding sched_loop
  sched_loop-Finds [] n s keep v = (thread_dequeue-Takes p self ls some_vcore all_vcores s v).taken
  sched_loop-Finds (events ∷ rounds) n s (keep, keeps) v =
      let k = thread_dequeue-Takes p self ls some_vcore all_vcores s v in
      let s₁ = (thread_dequeue p self s).1 in
      found_or-Finds _ _ k.taken (
        sched_loop-Finds rounds (spin n s₁).0 (events (spin n s₁).1) keeps
          (keep (spin n s₁).1 (spin-IsValid n s₁ k.valid)))

  -- From a valid state, and where the events and the other vcores keep it valid, `pth_sched_entry` of
  -- a vcore that runs nothing never fails its assertion, and a thread that it finds is then in state
  -- UPTH_RUNNING and prefers the vcore.
  pub sched_entry-IsRunning :
      (rounds : List (Pvcq → Pvcq)) (s : Pvcq)
      → Preserve rounds
      → IsValid s
      → (o : Option ℕ) × (s' : Pvcq) × (pth_sched_entry p rounds none self s ≡ some (o, s'))
        × ((t : ℕ) → o ≡ some t → IsRunning self t s')
  unfolding pth_sched_entry
  sched_entry-IsRunning rounds s keep v =
      run_found-IsRunning p self _ (sched_loop-Finds rounds s.max_spin_count s keep v)
