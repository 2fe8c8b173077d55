-- ===== src/Gq/Schedule.antt =====
-- src/gq/upthread.c: how threads move between the two queues.
use upthread.Base.{
  ℕ, Bool, true, false, List, [], ◌∷◌, ℤ, incr, decr, nonzero, Option, none, some, ◌>>=◌, ◌>>◌,
  if◌then◌else◌, remove, insert_tail, assert,
}
use upthread.Tcb.{
  ThreadState, created, runnable, blk_yielding, blk_joining, blk_sysc, blk_mutex, blk_paused,
}
use upthread.Gq.State.{
  Gq, Platform, vcore_request, vcore_yield, run_uthread, odd_state, just_blocked, to_state, call,
}

-- The head `t` of the ready queue becomes active; `rest` is the queue behind it.
abbrev pub activate : ℕ → List ℕ → Gq → Gq
activate t rest s = record s {
  ready_queue = rest;
  active_queue = insert_tail s.active_queue t;
  threads_active = incr s.threads_active;
  threads_ready = decr s.threads_ready;
}

-- The critical section of `pth_sched_entry`.
unfoldable pub take_ready : Gq → Option ℕ × Gq
take_ready s = elim s.ready_queue [ [] ↦ (none, s) | t ∷ rest ↦ (some t, activate t rest s) ]

-- The rest of a round that found no thread: `can_adjust_vcores && !(spin_count--)`.
unfoldable pub spin : ℤ → Gq → ℤ × Gq
spin spin_count s =
    if s.can_adjust_vcores
    then (decr spin_count, if nonzero spin_count then s else call vcore_yield s)
    else (spin_count, s)

abbrev pub or_else : Option ℕ × Gq → Option ℕ × Gq → Option ℕ × Gq
or_else (none, s) later = later
or_else (some t, s) later = (some t, s)

-- The loop of `pth_sched_entry`. The list holds what `handle_events` and the other vcores do to
-- the state after each round that finds no thread; where it ends the vcore is still looking.
unfoldable pub sched_loop : List (Gq → Gq) → ℤ → Gq → Option ℕ × Gq
unfolding take_ready spin
sched_loop [] spin_count s = take_ready s
sched_loop (events ∷ rounds) spin_count s =
    let later =
      (let (spin_count', s') = spin spin_count s in sched_loop rounds spin_count' (events s')) in
    or_else (take_ready s) later

-- The test of `switch (upthread->state)` in `pth_thread_runnable`.
abbrev pub is_odd : ThreadState → Bool
is_odd created = false
is_odd blk_yielding = false
is_odd blk_joining = false
is_odd blk_sysc = false
is_odd blk_paused = false
is_odd blk_mutex = false
is_odd _ = true

-- `pth_thread_runnable`
unfoldable pub pth_thread_runnable : ℕ → Gq → Gq
pth_thread_runnable t s =
    let s₁ = if is_odd (s.tcb t).state then call (odd_state t) s else s in
    let s₂ = to_state runnable t s₁ in
    let s₃ = record s₂ {
      ready_queue = insert_tail s₂.ready_queue t;
      threads_ready = incr s₂.threads_ready;
    } in
    if s₃.can_adjust_vcores then call (vcore_request 1) s₃ else s₃

-- `__upthread_generic_yield`
unfoldable pub generic_yield : ℕ → Gq → Option Gq
generic_yield t s = remove t s.active_queue >>= λ rest.
    some (record s { threads_active = decr s.threads_active; active_queue = rest })

-- `pth_thread_has_blocked`; `justice` is `flags == UTH_EXT_BLK_JUSTICE`.
unfoldable pub pth_thread_has_blocked : ℕ → Bool → Gq → Option Gq
unfolding generic_yield
pth_thread_has_blocked t justice s = do
  s₁ ← generic_yield t s
  some (if justice then call just_blocked (to_state blk_mutex t s₁) else to_state blk_mutex t s₁)

-- `pth_blockon_syscall`, which notes the thread in the call, `sysc->u_data`.
unfoldable pub pth_blockon_syscall : ℕ → Gq → Option (ℕ × Gq)
pth_blockon_syscall t s =
    let s₁ = to_state blk_sysc t s in
    remove t s₁.active_queue >>= λ rest.
    some (t, record s₁ { threads_active = decr s₁.threads_active; active_queue = rest })

-- `upthread_can_vcore_request`
unfoldable pub can_vcore_request : Bool → Gq → Gq
can_vcore_request can s = record s { can_adjust_vcores = can }

abbrev pub is_runnable : ThreadState → Bool
is_runnable runnable = true
is_runnable _ = false

module _ (p : Platform) where
  -- What follows the loop.
  abbrev pub run_found : Option ℕ × Gq → Option (Option ℕ × Gq)
  run_found (none, s) = some (none, s)
  run_found (some t, s) = do
    assert p.debug (is_runnable (s.tcb t).state)
    some (some t, call (run_uthread t) s)

  -- `pth_sched_entry`, with `current_uthread` of the vcore: the thread that runs next, if any.
  unfoldable pub pth_sched_entry : List (Gq → Gq) → Option ℕ → Gq → Option (Option ℕ × Gq)
  unfolding sched_loop
  pth_sched_entry rounds (some t) s = some (some t, call (run_uthread t) s)
  pth_sched_entry rounds none s = run_found (sched_loop rounds s.max_spin_count s)
