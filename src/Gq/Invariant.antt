-- ===== src/Gq/Invariant.antt =====
-- The invariant of the two queues of src/gq/upthread.c, and the operations on queues that keep it.
use upthread.Base.{
  bit, ◌==◌, ℕ, ◌+◌, ◌≤◌, ◌≡◌, refl, some, none, arith, List, [], ◌∷◌, length, count, count-cons,
  count-insert_tail, length-insert_tail, remove_total, pos, decr,
}
use upthread.Tcb.{runnable, ThreadState}
use upthread.Gq.State.{Gq, to_state}
use upthread.Gq.Schedule.{activate, take_ready, pth_thread_runnable, generic_yield}

-- The counters are the lengths, a thread stands in one queue at most and once, and a thread that is
-- ready is in the state that `pth_sched_entry` asserts.
pub record IsValid (s : Gq) : Type 0 where
  pub ready_counted : s.threads_ready ≡ pos (length s.ready_queue)
  pub active_counted : s.threads_active ≡ pos (length s.active_queue)
  pub once : (t : ℕ) → count t s.ready_queue + count t s.active_queue ≤ 1
  pub ready_runnable : (t : ℕ) → 1 ≤ count t s.ready_queue → (s.tcb t).state ≡ runnable

abbrev pub IsActive : ℕ → Gq → Type 0
IsActive t s = 1 ≤ count t s.active_queue

abbrev pub IsReady : ℕ → Gq → Type 0
IsReady t s = 1 ≤ count t s.ready_queue

-- In neither queue: blocked, new or gone.
abbrev pub IsIdle : ℕ → Gq → Type 0
IsIdle t s = count t s.ready_queue + count t s.active_queue ≡ 0

-- A change of one block that keeps the state of a thread which is not ready.
pub to_state-IsValid :
    (st : ThreadState) (t : ℕ) (s : Gq)
    → count t s.ready_queue ≡ 0
    → IsValid s
    → IsValid (to_state st t s)
to_state-IsValid st t s idle v = record {
  ready_counted = v.ready_counted;
  active_counted = v.active_counted;
  once = v.once;
  ready_runnable = λ u h. ground (arith, v.ready_runnable u);
}

-- A thread that is in neither queue can be made runnable.
pub runnable-IsValid : (t : ℕ) (s : Gq) → IsIdle t s → IsValid s → IsValid (pth_thread_runnable t s)
unfolding pth_thread_runnable
runnable-IsValid t s idle v = record {
  ready_counted = ground (arith, v.ready_counted, length-insert_tail s.ready_queue t);
  active_counted = ground (arith, v.active_counted);
  once = λ u. ground (arith, v.once u, count-insert_tail u s.ready_queue t);
  ready_runnable = λ u h. ground (arith, v.ready_runnable u, count-insert_tail u s.ready_queue t);
}

pub take_ready_nil : (s : Gq) → s.ready_queue ≡ [] → take_ready s ≡ (none, s)
unfolding take_ready
take_ready_nil s e = ground arith

pub take_ready_cons :
    (t : ℕ) (rest : List ℕ) (s : Gq)
    → s.ready_queue ≡ t ∷ rest
    → take_ready s ≡ (some t, activate t rest s)
unfolding take_ready
take_ready_cons t rest s e = ground arith

pub activate-IsValid :
    (t : ℕ) (rest : List ℕ) (s : Gq)
    → s.ready_queue ≡ t ∷ rest
    → IsValid s
    → IsValid (activate t rest s) × IsActive t (activate t rest s)
activate-IsValid t rest s e v = (
  record {
    ready_counted = ground (arith, v.ready_counted);
    active_counted = ground (arith, v.active_counted, length-insert_tail s.active_queue t);
    once = λ u. ground (arith, v.once u, count-cons u t rest, count-insert_tail u s.active_queue t);
    ready_runnable = λ u h. ground (arith, v.ready_runnable u, count-cons u t rest);
  },
  ground (arith, count-insert_tail t s.active_queue t),
)

-- What `__upthread_generic_yield` does to an active thread.
pub record Yields (t : ℕ) (s s' : Gq) : Type 0 where
  pub done : generic_yield t s ≡ some s'
  pub valid : IsValid s'
  pub idle : IsIdle t s'
  pub same_ready : s'.ready_queue ≡ s.ready_queue
  pub same_tcb : s'.tcb ≡ s.tcb
  pub same_calls : s'.calls ≡ s.calls
  pub others : (u : ℕ) → count u s.active_queue ≡ count u s'.active_queue + bit (u == t)

pub generic_yield_total : (t : ℕ) (s : Gq) → IsActive t s → IsValid s → (s' : Gq) × Yields t s s'
unfolding generic_yield
generic_yield_total t s active v =
    let (rest, eq, len, counts) = remove_total t s.active_queue active in
    (
      record s { threads_active = decr s.threads_active; active_queue = rest },
      record {
        done = rw eq;
        valid = record {
          ready_counted = v.ready_counted;
          active_counted = ground (arith, v.active_counted);
          once = λ u. omega (arith, v.once u, counts u);
          ready_runnable = v.ready_runnable;
        };
        idle = ground (arith, v.once t, counts t);
        same_ready = refl;
        same_tcb = refl;
        same_calls = refl;
        others = counts;
      },
    )
