-- ===== src/Barrier/Safety.antt =====
-- src/common/barrier.c: the states that the threads of Barrier/System can reach.
use upthread.Base.{
  ℕ, suc, ◌+◌, ◌≤◌, ◌<◌, ◌≡◌, refl, ◌≢◌, Bool, true, false, ◌||◌, none, arith, bit, count-nil,
}
use upthread.Base.Sums.{total-eq-zero}
use upthread.Barrier.Invariant.{
  Inv, has_arrived, here, parked_in, Phase, gathering, toggles_phase, signals_phase,
}
use upthread.Barrier.Ops.{barrier_init, barrier_block}
use upthread.Barrier.System.{
  Step, enter, arrives, resets, toggles, releases, spins, leaves, parks, goes_on, Reach, start,
  next, initial, Pc, idle, signalling, stalling, Thread, System,
}
use upthread.Barrier.Arriving.{arrives-Inv}
use upthread.Barrier.Quiet.{enter-Inv, spins-Inv, goes_on-Inv, leaves-Inv}
use upthread.Barrier.Opening.{resets-Inv, toggles-Inv}
use upthread.Barrier.Releasing.{signals-Inv, releases-Inv}
use upthread.Barrier.Parking.{parks-Inv, roomy}

abbrev pub IsSound : ℕ → System → Type 0
IsSound n s = (ph : Phase) × Inv n ph s

Step-Inv : {n i : ℕ} {s s' : System} → Step n i s s' → IsSound n s → IsSound n s'
Step-Inv {i = i} (enter lt at) (ph, inv) = (ph, enter-Inv inv i lt at)
Step-Inv {i = i} (arrives w lt at) (ph, inv) = arrives-Inv inv i lt w at
Step-Inv {i = i} (resets w lt at) (ph, inv) = (toggles_phase i, resets-Inv inv i lt w at)
Step-Inv {i = i} (toggles w lt at) (ph, inv) = (signals_phase i 0, toggles-Inv inv i lt w at)
Step-Inv {i = i} (Step.signals w k lt at more) (ph, inv) =
    (signals_phase i (suc k), signals-Inv inv i lt w k at more)
Step-Inv {i = i} (releases w k lt at all) (ph, inv) = (gathering, releases-Inv inv i lt w k at all)
Step-Inv {i = i} (spins w id k lt at must) (ph, inv) = (ph, spins-Inv inv i lt w id k at)
Step-Inv {i = i} (leaves w id k lt at changed) (ph, inv) =
    (ph, leaves-Inv inv i lt w id k at changed)
Step-Inv {i = i} (parks w id k b lt at must e) (ph, inv) =
    (ph, parks-Inv inv i lt w id k at b must e)
Step-Inv {i = i} (goes_on w id k lt at changed) (ph, inv) = (ph, goes_on-Inv inv i lt w id k at)

initial-Inv : (n : ℕ) → 0 < n → Inv n gathering (initial n)
unfolding barrier_init
initial-Inv n some_thread = record {
  sized = refl;
  places = λ i h. refl;
  beyond = λ i h. (refl, refl);
  roles = λ i. refl;
  waiting = refl;
  distinct = λ i j id e. absurd (ground arith);
  id_bound = λ i id e. absurd (ground arith);
  queued = λ t b. count-nil t;
  queue_length =
      λ b. total-eq-zero (parked_in b) n (λ _. record { pc = idle; passed = 0 }) (λ k. refl);
  room = λ b. refl;
  phase = (
    total-eq-zero (here 0) n (λ _. record { pc = idle; passed = 0 }) (λ k. refl),
    some_thread,
    λ j h. refl,
    λ i b e. absurd (ground arith),
  );
}

pub Reach-Inv : {n : ℕ} {s : System} → 0 < n → Reach n s → IsSound n s
Reach-Inv {n} some_thread start = (gathering, initial-Inv n some_thread)
Reach-Inv some_thread (next r st) = Step-Inv st (Reach-Inv some_thread r)

-- How many calls of a thread have incremented `arrived`: those that returned, and the one that it is
-- in past that point.
abbrev pub is_signalling : Pc → Bool
is_signalling (signalling w k) = true
is_signalling _ = false

abbrev pub arrivals : Thread → ℕ
arrivals t = t.passed + bit (has_arrived t.pc || is_signalling t.pc)

-- No thread gets past a barrier before all have come to it, in any round: a thread has returned from
-- no more waits than any other has arrived at.
pub nobody_early :
    {n : ℕ} {s : System}
    → Reach n s
    → (i j : ℕ) → i < n
    → j < n
    → (s.thread i).passed ≤ arrivals (s.thread j)
nobody_early r i j li lj =
    let (ph, inv) = Reach-Inv (omega arith) r in ground (arith, inv.places i li, inv.places j lj)

-- A thread that is about to block finds room in the array of the queue.
pub block_has_room :
    {n : ℕ} {s : System}
    → Reach n s
    → (i id k : ℕ) (w : Bool) → i < n
    → (s.thread i).pc ≡ stalling w id k
    → barrier_block i w s.barrier ≢ none
unfolding barrier_block
block_has_room r i id k w lt at =
    let (ph, inv) = Reach-Inv (omega arith) r in ground (arith, roomy inv i lt w id k at)
