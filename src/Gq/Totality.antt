-- ===== src/Gq/Totality.antt =====
-- src/gq/upthread.c, lines 152-176 and 325-459: how the operations on an active thread end.
use upthread.Base.{
  ℕ, ◌≡◌, ◌≢◌, Bool, true, false, none, some, List, arith, ◌==◌, assert-true, ==_refl, insert_tail,
}
use upthread.Tcb.{runnable, ThreadState, blk_yielding, blk_paused, blk_joining, blk_sysc, blk_mutex}
use upthread.Gq.State.{Gq, Platform, to_state, call, just_blocked, Call}
use upthread.Gq.Schedule.{
  pth_thread_runnable, generic_yield, pth_thread_has_blocked, pth_blockon_syscall,
}
use upthread.Gq.Threads.{pth_thread_paused, yield_cb, join_cb, swap_joiner}
use upthread.Gq.Invariant.{
  IsValid, IsActive, IsIdle, to_state-IsValid, runnable-IsValid, Yields, generic_yield_total,
}

-- The thread goes to the end of the ready queue.
abbrev pub IsRequeued : ℕ → Gq → Gq → Type 0
IsRequeued t s s' = (s'.ready_queue ≡ insert_tail s.ready_queue t) × ((s'.tcb t).state ≡ runnable)

runnable-IsRequeued : (t : ℕ) (s : Gq) → IsRequeued t s (pth_thread_runnable t s)
unfolding pth_thread_runnable
runnable-IsRequeued t s = (ground arith, ground arith)

-- A thread that blocks is in no queue and in state UPTH_BLK_MUTEX.
pub has_blocked_total :
    (t : ℕ) (justice : Bool) (s : Gq)
    → IsActive t s
    → IsValid s
    → (s' : Gq) × (pth_thread_has_blocked t justice s ≡ some s')
      × IsValid s'
      × IsIdle t s'
      × (s'.ready_queue ≡ s.ready_queue)
      × ((s'.tcb t).state ≡ blk_mutex)
unfolding pth_thread_has_blocked
has_blocked_total t true s active v =
    let (s₁, y) = generic_yield_total t s active v in
    let s₂ = to_state blk_mutex t s₁ in
    let w = to_state-IsValid blk_mutex t s₁ (omega (arith, y.idle)) y.valid in
    (
      call just_blocked s₂,
      rw y.done,
      record {
        ready_counted = w.ready_counted;
        active_counted = w.active_counted;
        once = w.once;
        ready_runnable = w.ready_runnable;
      },
      y.idle,
      y.same_ready,
      ground arith,
    )
has_blocked_total t false s active v =
    let (s₁, y) = generic_yield_total t s active v in
    (
      to_state blk_mutex t s₁,
      rw y.done,
      to_state-IsValid blk_mutex t s₁ (omega (arith, y.idle)) y.valid,
      y.idle,
      y.same_ready,
      ground arith,
    )

-- A thread that waits for a system call is in no queue and in state UPTH_BLK_SYSC, and the call
-- notes it.
pub blockon_syscall_total :
    (t : ℕ) (s : Gq)
    → IsActive t s
    → IsValid s
    → (s' : Gq) × (pth_blockon_syscall t s ≡ some (t, s'))
      × IsValid s'
      × IsIdle t s'
      × (s'.ready_queue ≡ s.ready_queue)
      × ((s'.tcb t).state ≡ blk_sysc)
unfolding pth_blockon_syscall generic_yield
blockon_syscall_total t s active v =
    let s₀ = to_state blk_sysc t s in
    let (s₁, y) =
      generic_yield_total t s₀ active (to_state-IsValid blk_sysc t s (omega (arith, v.once t)) v) in
    let e : s₁.tcb t ≡ s₀.tcb t = ground (arith, y.same_tcb) in
    (s₁, ground (arith, y.done), y.valid, y.idle, y.same_ready, ground arith)

pub calls-IsValid : (c : List Call) (s : Gq) → IsValid s → IsValid (record s { calls = c })
calls-IsValid c s v = record {
  ready_counted = v.ready_counted;
  active_counted = v.active_counted;
  once = v.once;
  ready_runnable = v.ready_runnable;
}

pub swap_joiner-IsValid :
    (target new : ℕ) (s : Gq) → IsValid s → IsValid (swap_joiner target new s).1
unfolding swap_joiner
swap_joiner-IsValid target new s v = record {
  ready_counted = v.ready_counted;
  active_counted = v.active_counted;
  once = v.once;
  ready_runnable = λ u h. ground (arith, v.ready_runnable u);
}

module _ (p : Platform)
    (dispatches : (t : ℕ) (s : Gq) → p.uthread_runnable t s ≡ pth_thread_runnable t s) where
  -- What parlib's `uthread_runnable` does to a thread that stands in no queue.
  pub record Wakes (t : ℕ) (s s' : Gq) : Type 0 where
    pub valid : IsValid s'
    pub requeued : IsRequeued t s s'
    pub same_active : s'.active_queue ≡ s.active_queue
    pub same_joiner : (u : ℕ) → (s'.tcb u).joiner ≡ (s.tcb u).joiner
    pub same_state : (u : ℕ) → u ≢ t → (s'.tcb u).state ≡ (s.tcb u).state

  pub wakes : (t : ℕ) (s : Gq) → IsIdle t s → IsValid s → Wakes t s (p.uthread_runnable t s)
  unfolding pth_thread_runnable
  wakes t s idle v = rw (dispatches t s) (record {
    valid = runnable-IsValid t s idle v;
    requeued = (ground arith, ground arith);
    same_active = ground arith;
    same_joiner = λ u. ground arith;
    same_state = λ u ne. ground arith;
  })

  requeue :
      (t : ℕ) (s s₁ : Gq) (st : ThreadState)
      → Yields t s s₁
      → IsValid (p.uthread_runnable t (to_state st t s₁))
        × IsRequeued t s (p.uthread_runnable t (to_state st t s₁))
  requeue t s s₁ st y =
      let s₂ = to_state st t s₁ in
      let w = wakes t s₂ y.idle (to_state-IsValid st t s₁ (omega (arith, y.idle)) y.valid) in
      (w.valid, (ground (arith, w.requeued, y.same_ready), w.requeued.1))

  -- A thread that yields goes behind all that are ready.
  pub yield_cb_total :
      (t : ℕ) (s : Gq)
      → IsActive t s
      → IsValid s
      → (s' : Gq) × (yield_cb p t s ≡ some s') × IsValid s' × IsRequeued t s s'
  unfolding yield_cb
  yield_cb_total t s active v =
      let (s₁, y) = generic_yield_total t s active v in
      (
        p.uthread_runnable t (to_state blk_yielding t s₁),
        rw y.done,
        (requeue t s s₁ blk_yielding y).0,
        (requeue t s s₁ blk_yielding y).1,
      )

  -- A thread that was interrupted goes behind all that are ready.
  pub paused_total :
      (t : ℕ) (s : Gq)
      → IsActive t s
      → IsValid s
      → (s' : Gq) × (pth_thread_paused p t s ≡ some s') × IsValid s' × IsRequeued t s s'
  unfolding pth_thread_paused
  paused_total t s active v =
      let (s₁, y) = generic_yield_total t s active v in
      (
        p.uthread_runnable t (to_state blk_paused t s₁),
        rw y.done,
        (requeue t s s₁ blk_paused y).0,
        (requeue t s s₁ blk_paused y).1,
      )

  -- A joiner that finds the slot of its target empty leaves its address there and sleeps.
  pub join_cb_sleeps :
      (t target : ℕ) (s : Gq)
      → IsActive t s
      → IsValid s
      → (s.tcb target).joiner ≡ none
      → (s' : Gq) × (join_cb p t target s ≡ some s')
        × IsValid s'
        × ((s'.tcb target).joiner ≡ some t)
        × IsIdle t s'
        × ((s'.tcb t).state ≡ blk_joining)
  unfolding join_cb
  join_cb_sleeps t target s active v slot =
      let (s₁, y) = generic_yield_total t s active v in
      let s₂ = to_state blk_joining t s₁ in
      let s₃ = (swap_joiner target t s₂).1 in
      (
        s₃,
        ground (arith, y.done, y.same_tcb),
        swap_joiner-IsValid target t s₂
            (to_state-IsValid blk_joining t s₁ (omega (arith, y.idle)) y.valid),
        ground arith,
        y.idle,
        ground arith,
      )

  -- A joiner that finds the target itself in the slot, which has exited, is requeued at once.
  pub join_cb_requeues :
      (t target : ℕ) (s : Gq)
      → IsActive t s
      → IsValid s
      → (s.tcb target).joiner ≡ some target
      → (s' : Gq) × (join_cb p t target s ≡ some s')
        × IsValid s'
        × ((s'.tcb target).joiner ≡ some t)
        × IsRequeued t s s'
  unfolding join_cb
  join_cb_requeues t target s active v slot =
      let (s₁, y) = generic_yield_total t s active v in
      let s₂ = to_state blk_joining t s₁ in
      let s₃ = (swap_joiner target t s₂).1 in
      let w = wakes t s₃ y.idle (
        swap_joiner-IsValid target t s₂
          (to_state-IsValid blk_joining t s₁ (omega (arith, y.idle)) y.valid)) in
      (
        p.uthread_runnable t s₃,
        ground (arith, y.done, y.same_tcb, assert-true p.debug (target == target), ==_refl target),
        w.valid,
        ground (arith, w.same_joiner target),
        (ground (arith, w.requeued, y.same_ready), w.requeued.1),
      )
