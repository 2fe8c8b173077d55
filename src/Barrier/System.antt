-- ===== src/Barrier/System.antt =====
-- `n` threads that call `upthread_barrier_wait` of src/common/barrier.c again and again on one barrier
-- for `n`, interleaved in any order. A step is one access to the barrier, or one section under the
-- lock of a queue.
use upthread.Base.{
  ℕ, suc, ◌≤◌, ◌<◌, ◌≡◌, Bool, true, false, some, List, [], ◌∷◌, ltb, ◌==◌, if◌then◌else◌,
}
use upthread.Base.Sums.{update}
use upthread.Barrier.Ops.{
  Barrier, barrier_init, barrier_block, arrive, reset_arrived, toggle_wait, signal, unblock,
  must_wait, max_stalls,
}

-- Where a thread stands; `wait` and `id` are its local variables.
pub data Pc : Type 0 where
  idle : Pc
  arriving : (wait : Bool) → Pc  -- before `arrived` is incremented
  resetting : (wait : Bool) → Pc  -- the last to arrive: before `arrived` is reset
  toggling : (wait : Bool) → Pc  -- before `barrier->wait` is toggled
  signalling : (wait : Bool) (i : ℕ) → Pc  -- in the loop that sets the signals
  spinning : (wait : Bool) (id nstalls : ℕ) → Pc  -- before the test of `while`
  stalling : (wait : Bool) (id nstalls : ℕ) → Pc  -- before the lock of `blocked[wait]`
  parked : (wait : Bool) (id nstalls : ℕ) → Pc  -- in the queue `blocked[wait]`

-- A thread, and how many waits of it have returned.
pub record Thread : Type 0 where
  pub pc : Pc
  pub passed : ℕ

-- The barrier, the threads, and how often `barrier->wait` was toggled.
pub record System : Type 0 where
  pub barrier : Barrier
  pub thread : ℕ → Thread
  pub opened : ℕ

abbrev pub move : ℕ → Pc → Barrier → System → System
move i p b s = record s { barrier = b; thread = update s.thread i (record (s.thread i) { pc = p }) }

-- The return of `upthread_barrier_wait`.
abbrev pub leave : ℕ → System → System
leave i s = record s {
  thread = update s.thread i (record { pc = idle; passed = suc (s.thread i).passed });
}

-- `id == (barrier->N - 1)`
abbrev pub after_arrive : Bool → ℕ → ℕ → Pc
after_arrive w n id = if suc id == n then resetting w else spinning w id 0

-- The body of `while` up to the lock, with `nstalls` already incremented.
abbrev pub after_stall : Bool → ℕ → ℕ → Pc
after_stall w id k = if ltb k max_stalls then spinning w id k else stalling w id k

-- `uthread_runnable` on a blocked thread: it goes on with the loop.
abbrev pub resume_pc : Pc → Pc
resume_pc (parked w id k) = spinning w id k
resume_pc p = p

abbrev pub resume : Thread → Thread
resume t = record t { pc = resume_pc t.pc }

unfoldable pub resume_all : List ℕ → (ℕ → Thread) → ℕ → Thread
resume_all [] f = f
resume_all (t ∷ q) f = resume_all q (update f t (resume (f t)))

-- The end of the last thread's call.
abbrev pub release : ℕ → Bool → System → System
release i w s =
    let (woken, b) = unblock w s.barrier in
    leave i (record s { barrier = b; thread = resume_all woken s.thread })

-- A step of thread `i`.
pub data Step (n i : ℕ) (s : System) : System → Type 0 where
  enter : i < n → (s.thread i).pc ≡ idle → Step n i s (move i (arriving s.barrier.wait) s.barrier s)
  arrives :
      (w : Bool)
      → i < n
      → (s.thread i).pc ≡ arriving w
      → Step n i s (let (id, b) = arrive s.barrier in move i (after_arrive w s.barrier.size id) b s)
  resets :
      (w : Bool)
      → i < n
      → (s.thread i).pc ≡ resetting w
      → Step n i s (move i (toggling w) (reset_arrived s.barrier) s)
  toggles :
      (w : Bool)
      → i < n
      → (s.thread i).pc ≡ toggling w
      → Step n i s
          (record (move i (signalling w 0) (toggle_wait s.barrier) s) { opened = suc s.opened })
  signals :
      (w : Bool) (k : ℕ)
      → i < n
      → (s.thread i).pc ≡ signalling w k
      → k < s.barrier.size
      → Step n i s (move i (signalling w (suc k)) (signal w k s.barrier) s)
  releases :
      (w : Bool) (k : ℕ)
      → i < n
      → (s.thread i).pc ≡ signalling w k
      → s.barrier.size ≤ k
      → Step n i s (release i w s)
  spins :
      (w : Bool) (id k : ℕ)
      → i < n
      → (s.thread i).pc ≡ spinning w id k
      → must_wait w id s.barrier ≡ true
      → Step n i s (move i (after_stall w id (suc k)) s.barrier s)
  leaves :
      (w : Bool) (id k : ℕ)
      → i < n
      → (s.thread i).pc ≡ spinning w id k
      → must_wait w id s.barrier ≡ false
      → Step n i s (leave i s)
  parks :
      (w : Bool) (id k : ℕ) (b : Barrier)
      → i < n
      → (s.thread i).pc ≡ stalling w id k
      → must_wait w id s.barrier ≡ true
      → barrier_block i w s.barrier ≡ some b
      → Step n i s (move i (parked w id k) b s)
  goes_on :
      (w : Bool) (id k : ℕ)
      → i < n
      → (s.thread i).pc ≡ stalling w id k
      → must_wait w id s.barrier ≡ false
      → Step n i s (move i (spinning w id k) s.barrier s)

abbrev pub initial : ℕ → System
initial n = record {
  barrier = barrier_init n;
  thread = λ _. record { pc = idle; passed = 0 };
  opened = 0;
}

pub data Reach (n : ℕ) : System → Type 0 where
  start : Reach n (initial n)
  next : {i : ℕ} {s s' : System} → Reach n s → Step n i s s' → Reach n s'
