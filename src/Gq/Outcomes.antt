-- ===== src/Gq/Outcomes.antt =====
-- src/gq/upthread.c: how the callbacks of a thread that stops end, on each of their branches.
use upthread.Base.{
  ℕ, ◌≡◌, ◌⊎◌, inl, inr, Bool, true, false, none, some, ◌∷◌, Bool-cases, Option-cases, same, Option,
}
use upthread.Tcb.{exiting, blk_joining, blk_mutex, blk_sysc, ThreadState}
use upthread.Gq.State.{Gq, Platform, free, uthread_cleanup}
use upthread.Gq.Schedule.{pth_thread_runnable, pth_thread_has_blocked, pth_blockon_syscall}
use upthread.Gq.Threads.{exit_cb, join_cb, yield_cb, pth_thread_paused}
use upthread.Gq.Invariant.{IsValid, IsActive, IsIdle}
use upthread.Gq.Totality.{
  IsRequeued, has_blocked_total, blockon_syscall_total, yield_cb_total, paused_total,
  join_cb_sleeps, join_cb_requeues,
}
use upthread.Gq.Exits.{Unmaps, exit_cb_detached, exit_cb_first, exit_cb_wakes}

-- Three ways for an exit to end: with the thread freed, with the thread in its own slot, and with the
-- joiner woken that stood there.
pub data ExitEnds (t : ℕ) (s s' : Gq) : Type 0 where
  frees :
      (s.tcb t).detached ≡ true
      → IsIdle t s'
      → s'.ready_queue ≡ s.ready_queue
      → s'.calls ≡ free t ∷ uthread_cleanup t ∷ s.calls
      → ExitEnds t s s'
  leaves :
      (s.tcb t).detached ≡ false
      → (s.tcb t).joiner ≡ none
      → IsIdle t s'
      → s'.ready_queue ≡ s.ready_queue
      → (s'.tcb t).joiner ≡ some t
      → (s'.tcb t).state ≡ exiting
      → ExitEnds t s s'
  wakes :
      (j : ℕ)
      → (s.tcb t).detached ≡ false
      → (s.tcb t).joiner ≡ some j
      → IsRequeued j s s'
      → (s'.tcb t).joiner ≡ some t
      → (s'.tcb t).state ≡ exiting
      → ExitEnds t s s'

-- Two ways for the callback of a join to end: with the joiner asleep, and with the joiner queued.
pub data JoinEnds (t target : ℕ) (s s' : Gq) : Type 0 where
  sleeps :
      (s.tcb target).joiner ≡ none
      → (s'.tcb target).joiner ≡ some t
      → IsIdle t s'
      → (s'.tcb t).state ≡ blk_joining
      → JoinEnds t target s s'
  requeues :
      (s.tcb target).joiner ≡ some target
      → (s'.tcb target).joiner ≡ some t
      → IsRequeued t s s'
      → JoinEnds t target s s'

-- That a thread is blocked, in some state, and no other is touched.
pub record IsBlocked (t : ℕ) (st : ThreadState) (s s' : Gq) : Type 0 where
  pub valid : IsValid s'
  pub idle : IsIdle t s'
  pub same_ready : s'.ready_queue ≡ s.ready_queue
  pub state : (s'.tcb t).state ≡ st

-- A call that completes and puts the thread at the end of the ready queue.
abbrev pub Requeues : ℕ → Gq → Option Gq → Type 0
Requeues t s r = (s' : Gq) × (r ≡ some s') × IsValid s' × IsRequeued t s s'

blocks_total :
    (t : ℕ) (justice : Bool) (s : Gq)
    → IsActive t s
    → IsValid s
    → ((s' : Gq) × (pth_thread_has_blocked t justice s ≡ some s') × IsBlocked t blk_mutex s s')
      × ((s' : Gq) × (pth_blockon_syscall t s ≡ some (t, s')) × IsBlocked t blk_sysc s s')
blocks_total t justice s active v =
    let (x, e, w, idle, same, st) = has_blocked_total t justice s active v in
    let (y, f, u, idle', same', st') = blockon_syscall_total t s active v in
    (
      (x, e, record { valid = w; idle = idle; same_ready = same; state = st }),
      (y, f, record { valid = u; idle = idle'; same_ready = same'; state = st' }),
    )

module _ (p : Platform)
    (dispatches : (t : ℕ) (s : Gq) → p.uthread_runnable t s ≡ pth_thread_runnable t s) where
  -- In a valid state, where parlib's `uthread_runnable` is the scheduler's, an active thread that
  -- yields, and one that is paused, goes to the end of the ready queue; one that blocks is in no queue
  -- and in state UPTH_BLK_MUTEX, and one that waits for a system call is noted in the call, in no
  -- queue and in state UPTH_BLK_SYSC, and the ready queue is as before; the state stays valid.
  pub stops_total :
      (t : ℕ) (justice : Bool) (s : Gq)
      → IsActive t s
      → IsValid s
      → Requeues t s (yield_cb p t s)
        × Requeues t s (pth_thread_paused p t s)
        × ((s' : Gq) × (pth_thread_has_blocked t justice s ≡ some s') × IsBlocked t blk_mutex s s')
        × ((s' : Gq) × (pth_blockon_syscall t s ≡ some (t, s')) × IsBlocked t blk_sysc s s')
  stops_total t justice s active v =
      let (blocks, waits) = blocks_total t justice s active v in
      (
        yield_cb_total p dispatches t s active v,
        paused_total p dispatches t s active v,
        blocks,
        waits,
      )

  -- In a valid state, where parlib's `uthread_runnable` is the scheduler's, the callback of a join
  -- whose target's slot is empty or holds the target completes and keeps the state valid, and the
  -- joiner sleeps or goes on as the slot says.
  pub join_cb_total :
      (t target : ℕ) (s : Gq)
      → IsActive t s
      → IsValid s
      → ((s.tcb target).joiner ≡ none) ⊎ ((s.tcb target).joiner ≡ some target)
      → (s' : Gq) × (join_cb p t target s ≡ some s') × IsValid s' × JoinEnds t target s s'
  join_cb_total t target s active v (inl slot) =
      let (s', e, w, mine, idle, st) = join_cb_sleeps p dispatches t target s active v slot in
      (s', e, w, sleeps slot mine idle st)
  join_cb_total t target s active v (inr slot) =
      let (s', e, w, mine, last) = join_cb_requeues p dispatches t target s active v slot in
      (s', e, w, requeues slot mine last)

  -- In a valid state, where parlib's `uthread_runnable` is the scheduler's, munmap accepts the stack
  -- and a joiner in the slot of a joinable thread is in no queue: the exit of an active thread completes
  -- and keeps the state valid, and frees it, leaves it for its joiner or wakes its joiner as it is
  -- detached, not joined yet or joined.
  pub exit_cb_total :
      (t : ℕ) (s : Gq)
      → IsActive t s
      → IsValid s
      → Unmaps p dispatches t s
      → ((j : ℕ) → (s.tcb t).joiner ≡ some j → IsIdle j s)
      → (s' : Gq) × (exit_cb p t s ≡ some s') × IsValid s' × ExitEnds t s s'
  exit_cb_total t s active v unmaps waits = elim (Bool-cases (s.tcb t).detached) [
    | inl d ↦
        let (s', e, w, idle, same, calls) = exit_cb_detached p dispatches t s active v unmaps d in
        (s', e, w, frees d idle same calls)
    | inr d ↦ elim (Option-cases (s.tcb t).joiner) [
      | inl slot ↦
          let (s', e, w, idle, same, mine, st) =
            exit_cb_first p dispatches t s active v unmaps d slot in
          (s', e, w, leaves d slot idle same mine st)
      | inr (j, slot) ↦
          let (s', e, w, last, mine, st) =
            exit_cb_wakes p dispatches t j s active v unmaps d slot (waits j slot) in
          (s', e, w, wakes j d slot last mine st)
    ]
  ]
