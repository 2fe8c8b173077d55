-- ===== src/Examples/Barriers.antt =====
-- src/common/barrier.c: two threads; thread 0 arrives, stalls a thousand times and blocks.
use upthread.Base.{
  ℕ, zero, suc, ◌≤◌, ◌<◌, ◌≡◌, refl, ap, false, some, [], ◌∷◌, arith, if◌then◌else◌,
}
use upthread.Barrier.Ops.{
  Barrier, barrier_init, barrier_block, eq_bool, arrive, must_wait, max_stalls,
}
use upthread.Barrier.System.{
  arriving, spinning, stalling, parked, System, move, after_arrive, after_stall, enter, arrives,
  spins, parks, initial, Reach, start, next,
}
use upthread.Barrier.Safety.{arrivals, nobody_early}
use upthread.Barrier.Progress.{IsParked, CanStep, barrier_no_deadlock}

abbrev here : Barrier
here = record {
  size = 2;
  arrived = 1;
  wait = false;
  signals = λ _. false;
  blocked = λ _. record { queue = []; maxlen = 2 };
}

abbrev entered : System
entered = move 0 (arriving (initial 2).barrier.wait) (initial 2).barrier (initial 2)

abbrev arrived : System
arrived = move 0 (after_arrive false 2 0) here entered

arrived-Reach : Reach 2 arrived
unfolding barrier_init arrive
arrived-Reach =
    next {i = 0} (next {i = 0} start (enter (omega arith) refl)) (arrives false (omega arith) refl)

-- Thread 0 after `k` stalls.
record Stalled (k : ℕ) : Type 0 where
  state : System
  reach : Reach 2 state
  at : (state.thread 0).pc ≡ spinning false 0 k
  same : state.barrier ≡ here

stalls : (k : ℕ) → k < max_stalls → Stalled k
unfolding barrier_init
stalls zero h = record { state = arrived; reach = arrived-Reach; at = refl; same = refl }
stalls (suc k) h =
    let p = stalls k (omega arith) in
    record {
      state = move 0 (after_stall false 0 (suc k)) p.state.barrier p.state;
      reach =
          next {i = 0} p.reach (spins false 0 k (omega arith) p.at (ap (must_wait false 0) p.same));
      at = ground arith;
      same = p.same;
    }

last_spin : Stalled 999
last_spin = stalls 999 (omega arith)

-- After the thousandth.
stalled : System
stalled = move 0 (after_stall false 0 1000) last_spin.state.barrier last_spin.state

stalled-Reach : Reach 2 stalled
unfolding stalled
stalled-Reach =
    next {i = 0} last_spin.reach
      (spins false 0 999 (omega arith) last_spin.at (ap (must_wait false 0) last_spin.same))

stalled_at : (stalled.thread 0).pc ≡ stalling false 0 1000
unfolding stalled
stalled_at = ground arith

stalled_barrier : stalled.barrier ≡ here
unfolding stalled
stalled_barrier = last_spin.same

nobody_early_example : (stalled.thread 1).passed ≤ arrivals (stalled.thread 0)
nobody_early_example = nobody_early stalled-Reach 1 0 (omega arith) (omega arith)

abbrev full : Barrier
full = record here {
  blocked = λ v. if eq_bool v false then record { queue = 0 ∷ []; maxlen = 2 } else here.blocked v;
}

blocks : barrier_block 0 false stalled.barrier ≡ some full
unfolding barrier_block
blocks = rw stalled_barrier refl

waiting : System
waiting = move 0 (parked false 0 1000) full stalled

waiting-Reach : Reach 2 waiting
unfolding waiting
waiting-Reach = next {i = 0} stalled-Reach (
    parks false 0 1000 full (omega arith) stalled_at (ap (must_wait false 0) stalled_barrier)
      blocks)

waiting-IsParked : IsParked (waiting.thread 0).pc
unfolding waiting
waiting-IsParked = tt

barrier_no_deadlock_example :
    (j : ℕ) × (j < 2) × (¬ IsParked (waiting.thread j).pc) × CanStep 2 j waiting
barrier_no_deadlock_example = barrier_no_deadlock waiting-Reach 0 (omega arith) waiting-IsParked
