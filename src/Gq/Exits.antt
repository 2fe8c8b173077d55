-- ===== src/Gq/Exits.antt =====
-- src/gq/upthread.c, lines 388-413: what `__pth_exit_cb` does to a detached thread, to a thread that
-- nobody joined yet, and to one that a joiner waits for.
use upthread.Base.{ℕ, ◌≡◌, true, false, none, some, ◌∷◌, arith, assert-true}
use upthread.Tcb.{exiting, ptr_sub}
use upthread.Gq.State.{Gq, Platform, to_state, call, free, uthread_cleanup}
use upthread.Gq.Schedule.{pth_thread_runnable}
use upthread.Gq.Threads.{exit_cb, swap_joiner, free_stack}
use upthread.Gq.Invariant.{IsValid, IsActive, IsIdle, to_state-IsValid, generic_yield_total}
use upthread.Gq.Totality.{IsRequeued, wakes, calls-IsValid, swap_joiner-IsValid}

module _ (p : Platform)
    (dispatches : (t : ℕ) (s : Gq) → p.uthread_runnable t s ≡ pth_thread_runnable t s) where
  -- The stack of an exiting thread goes back to the system.
  abbrev pub Unmaps : ℕ → Gq → Type 0
  Unmaps t s = p.munmap (ptr_sub (s.tcb t).stacktop (s.tcb t).stacksize) (s.tcb t).stacksize ≡ true

  freed_stack : (t : ℕ) (s : Gq) → Unmaps t s → free_stack p (s.tcb t) ≡ some tt
  unfolding free_stack
  freed_stack t s unmaps = assert-true p.debug _ unmaps

  -- A detached thread that exits is freed, and wakes nobody.
  pub exit_cb_detached :
      (t : ℕ) (s : Gq)
      → IsActive t s
      → IsValid s
      → Unmaps t s
      → (s.tcb t).detached ≡ true
      → (s' : Gq) × (exit_cb p t s ≡ some s')
        × IsValid s'
        × IsIdle t s'
        × (s'.ready_queue ≡ s.ready_queue)
        × (s'.calls ≡ free t ∷ uthread_cleanup t ∷ s.calls)
  unfolding exit_cb
  exit_cb_detached t s active v unmaps detached =
      let (s₁, y) = generic_yield_total t s active v in
      let w = to_state-IsValid exiting t s₁ (omega (arith, y.idle)) y.valid in
      (
        call (free t) (call (uthread_cleanup t) (to_state exiting t s₁)),
        ground (arith, y.done, y.same_tcb, freed_stack t s unmaps),
        calls-IsValid _ _ w,
        y.idle,
        y.same_ready,
        ground (arith, y.same_calls),
      )

  -- A joinable thread that exits before it is joined leaves its own address in its slot.
  pub exit_cb_first :
      (t : ℕ) (s : Gq)
      → IsActive t s
      → IsValid s
      → Unmaps t s
      → (s.tcb t).detached ≡ false
      → (s.tcb t).joiner ≡ none
      → (s' : Gq) × (exit_cb p t s ≡ some s')
        × IsValid s'
        × IsIdle t s'
        × (s'.ready_queue ≡ s.ready_queue)
        × ((s'.tcb t).joiner ≡ some t)
        × ((s'.tcb t).state ≡ exiting)
  unfolding exit_cb
  exit_cb_first t s active v unmaps detached slot =
      let (s₁, y) = generic_yield_total t s active v in
      let w = to_state-IsValid exiting t s₁ (omega (arith, y.idle)) y.valid in
      let s₂ = call (uthread_cleanup t) (to_state exiting t s₁) in
      (
        (swap_joiner t t s₂).1,
        ground (arith, y.done, y.same_tcb, freed_stack t s unmaps),
        swap_joiner-IsValid t t s₂ (calls-IsValid _ _ w),
        y.idle,
        y.same_ready,
        ground arith,
        ground arith,
      )

  -- A joinable thread that exits after it was joined requeues the joiner that waits in its slot.
  pub exit_cb_wakes :
      (t j : ℕ) (s : Gq)
      → IsActive t s
      → IsValid s
      → Unmaps t s
      → (s.tcb t).detached ≡ false
      → (s.tcb t).joiner ≡ some j
      → IsIdle j s
      → (s' : Gq) × (exit_cb p t s ≡ some s')
        × IsValid s'
        × IsRequeued j s s'
        × ((s'.tcb t).joiner ≡ some t)
        × ((s'.tcb t).state ≡ exiting)
  unfolding exit_cb
  exit_cb_wakes t j s active v unmaps detached slot idle =
      let (s₁, y) = generic_yield_total t s active v in
      let w = to_state-IsValid exiting t s₁ (omega (arith, y.idle)) y.valid in
      let s₂ = call (uthread_cleanup t) (to_state exiting t s₁) in
      let s₃ = (swap_joiner t t s₂).1 in
      let k =
        wakes p dispatches j s₃ (ground (arith, y.same_ready, y.others j))
          (swap_joiner-IsValid t t s₂ (calls-IsValid _ _ w)) in
      (
        p.uthread_runnable j s₃,
        ground (arith, y.done, y.same_tcb, freed_stack t s unmaps),
        k.valid,
        (ground (arith, k.requeued, y.same_ready), k.requeued.1),
        ground (arith, k.same_joiner t),
        ground (arith, k.same_state t),
      )
