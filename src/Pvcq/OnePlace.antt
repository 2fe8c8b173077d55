-- ===== src/Pvcq/OnePlace.antt =====
-- src/pvcq/upthread.c: where the threads are in every state that Pvcq/System can reach.
use upthread.Base.{
  ℕ, ◌+◌, ◌≤◌, ◌<◌, ◌≡◌, refl, sym, ap, ◌∙◌, subst, ◌≢◌, inl, inr, true, false, none, some, List,
  arith, ltb, ◌==◌, bit, ==_refl, Bool-cases, bind-eq-some, some_inj, count, ℤ, pos, negsuc,
  positive,
}
use upthread.Tcb.{
  ThreadState, running, blk_yielding, blk_sysc, blk_mutex, blk_paused, exiting, runnable,
}
use upthread.Pvcq.State.{Pvcq, Platform, to_state, with_tcb}
use upthread.Pvcq.Queues.{odd, placement, pth_thread_runnable}
use upthread.Pvcq.Threads.{
  Memory, free, pth_sched_entry, sched_loop, pth_thread_paused, pth_thread_has_blocked,
  pth_blockon_syscall, yield_cb, upthread_detach,
}
use upthread.Pvcq.State.{can_vcore_request, can_vcore_steal, short_circuit_yield}
use upthread.Pvcq.Lifecycle.{join_finish, restart_thread}
use upthread.Pvcq.Invariant.{queued, found}
use upthread.Pvcq.System.{
  System, stopped, Step, schedules, yields, pauses, blocks, calls_system, unblocks, restarts, joins,
  joins_late, joined, exits, creates, detaches, requests, resizes, steals, shortens, Reach, start,
  next,
}
use upthread.Pvcq.Dequeue.{thread_dequeue-Takes}
use upthread.Pvcq.Entering.{IsBounded}
use upthread.Pvcq.Slots.{loose}
use upthread.Pvcq.State.{set_num_vcores}
use upthread.Pvcq.Moves.{count-Inv, Inv, same-Inv, queue-Inv, stop-Inv}
use upthread.Pvcq.Running.{found-Inv}
use upthread.Pvcq.Ending.{free-Inv}
use upthread.Pvcq.Places.{outside}
use upthread.Pvcq.Starting.{init-Inv, init-Owed}
use upthread.Pvcq.Owed.{Owed}
use upthread.Pvcq.Renewed.{unused, create-Allocs}
use upthread.Pvcq.Settled.{restart_thread-runs, Step-Owed}
use upthread.Pvcq.Steps.{runnable-Inv, join-Inv, exit-Inv, create-Inv}

-- What the vcores and the queues have of a thread.
pub record IsOnce (m t : ℕ) (s : System) : Type 0 where
  pub queued_once : queued m t s.base ≤ 1
  pub run_once : (v w : ℕ) → s.current v ≡ some t → s.current w ≡ some t → v ≡ w
  pub not_both :
      (v : ℕ) → s.current v ≡ some t → (queued m t s.base ≡ 0) × ((s.base.tcb t).state ≡ running)
  pub ready : (s.base.tcb t).state ≡ runnable → queued m t s.base ≡ 1
  pub active : (s.base.tcb t).state ≡ running → (v : ℕ) × (s.current v ≡ some t)

module _ (p : Platform) (mem : Memory) (some_vcore : 0 < p.num_vcores)
    (all_vcores : p.num_vcores ≤ p.max_vcores) (rounds : ℕ → Pvcq → List (ℕ → ℕ))
    (bounded : (t : ℕ) (s : Pvcq) → IsBounded (rounds t s) s)
    (dispatches : (t : ℕ) (s : Pvcq)
      → p.uthread_runnable t s ≡ pth_thread_runnable (rounds t s) t s)
    (inserts : (t u : ℕ) (l : List ℕ) → count u (mem.wfl_insert t l) ≡ count u l + bit (u == t))
    (removes : (u : ℕ) (l : List ℕ)
      → count u (mem.wfl_remove l).1 + found u (mem.wfl_remove l).0 ≡ count u l) where
  abbrev IsInv : System → Type 0
  IsInv s = Inv p.max_vcores s.base s.current

  -- A thread stops in state `st`, and its callback makes it runnable.
  rerun-Inv :
      (v t : ℕ) (st : ThreadState) (s : System)
      → IsInv s
      → s.current v ≡ some t
      → placement st ≢ odd
      → IsInv (stopped v (p.uthread_runnable t (to_state st t s.base)) s)
  rerun-Inv v t st s h at known =
      let (h', free, e) =
        stop-Inv p.max_vcores v t st s.base s.current h at (λ e. known (ap placement e))
          (λ e. known (ap placement e)) in
      runnable-Inv p mem rounds bounded dispatches t _ _ h' free
        (λ q. known (ap placement (sym e) ∙ q))

  unblocked-Inv :
      (t : ℕ) (s : System)
      → IsInv s
      → (s.base.tcb t).state ≡ blk_mutex
      → IsInv (record s { base = p.uthread_runnable t s.base })
  unblocked-Inv t s h st =
      runnable-Inv p mem rounds bounded dispatches t s.base s.current h
        (loose s.base.tcb t h.slots (λ e. ground arith)) (λ e. ground arith)

  restarted-Inv :
      (others : List (ℕ → ℕ)) (t sysc : ℕ) (b : Pvcq) (s : System)
      → IsInv s
      → (s.base.tcb t).state ≡ blk_sysc
      → restart_thread p mem others t sysc s.base ≡ some b
      → IsInv (record s { base = b })
  restarted-Inv others t sysc b s h st e =
      let s₁ = with_tcb t (λ b. record b { sysc = none }) s.base in
      let st' : (s₁.tcb t).state ≡ blk_sysc = ground (arith, ==_refl t) in
      let h' =
        same-Inv p.max_vcores s.base s₁ s.current h (λ v. refl) (λ v. refl) (λ u. ground arith)
          (λ u. ground arith) (λ u. ground arith) refl refl in
      subst (λ x. Inv p.max_vcores x s.current) (restart_thread-runs p mem others t sysc s.base b e)
        (queue-Inv p.max_vcores others t s₁ s.current h'
          (loose s₁.tcb t h'.slots (λ e. ground arith)) (λ e. ground arith)
          (λ e. absurd (ground arith)))

  joined-Inv :
      (target ret : ℕ) (b : Pvcq) (s : System)
      → IsInv s
      → join_finish p mem target s.base ≡ some (ret, b)
      → Inv p.max_vcores b s.current
  unfolding join_finish
  joined-Inv target ret b s h e =
      let (b₁, done, e₁) = bind-eq-some (free p mem target s.base) _ e in
      subst (λ (x : ℕ × Pvcq). Inv p.max_vcores x.1 s.current) (some_inj e₁)
        (free-Inv p mem target s.base b₁ p.max_vcores s.current done h)

  resized-Inv :
      (num : ℤ) (s : System)
      → IsInv s
      → positive num ≡ true
      → IsInv (record s { base = set_num_vcores p num s.base })
  unfolding set_num_vcores
  resized-Inv (pos n) s h some_queue =
      count-Inv p.max_vcores _ _ s.base s.current h (elim (Bool-cases (ltb n p.max_vcores)) [
        | inl e ↦ rw e (n, refl, ground arith, ground arith)
        | inr e ↦ rw e (p.max_vcores, refl, ground arith, omega arith)
      ])
  resized-Inv (negsuc n) s h some_queue = absurd (ground arith)

  Step-Inv :
      {v : ℕ} {s s' : System} → Step p mem v s s' → IsInv s → Owed s.base s.joining → IsInv s'
  unfolding pth_sched_entry sched_loop yield_cb pth_thread_paused pth_thread_has_blocked
      pth_blockon_syscall upthread_detach can_vcore_request can_vcore_steal short_circuit_yield
  Step-Inv {v} {s} (schedules pick b lt idle e) h o =
      found-Inv p p.max_vcores v s.base s.current _ pick b lt h idle
        (thread_dequeue-Takes p v lt some_vcore all_vcores s.base h.places.valid) e
  Step-Inv {v} {s} (yields t at) h o = rerun-Inv v t blk_yielding s h at (λ e. ground arith)
  Step-Inv {v} {s} (pauses t at) h o = rerun-Inv v t blk_paused s h at (λ e. ground arith)
  Step-Inv {v} {s} (blocks t true at) h o =
      same-Inv p.max_vcores _ _ _
        (stop-Inv p.max_vcores v t blk_mutex s.base s.current h at (λ e. ground arith)
          (λ e. ground arith)).0
        (λ v. refl) (λ v. refl) (λ u. refl) (λ u. refl) (λ u. refl) refl refl
  Step-Inv {v} {s} (blocks t false at) h o =
      (stop-Inv p.max_vcores v t blk_mutex s.base s.current h at (λ e. ground arith)
        (λ e. ground arith)).0
  Step-Inv {v} {s} (calls_system t at) h o =
      (stop-Inv p.max_vcores v t blk_sysc s.base s.current h at (λ e. ground arith)
        (λ e. ground arith)).0
  Step-Inv {v} {s} (unblocks t st) h o = unblocked-Inv t s h st
  Step-Inv {v} {s} (restarts others t sysc b st e) h o = restarted-Inv others t sysc b s h st e
  Step-Inv {v} {s} (joins t target b at idle ne unowed slot e) h o =
      join-Inv p mem rounds bounded dispatches v t target s.base b s.current h at ne slot e
  Step-Inv {v} {s} (joins_late t target at idle ne unowed slot e) h o = h
  Step-Inv {v} {s} (joined t target ret b at for e) h o = joined-Inv target ret b s h e
  Step-Inv {v} {s} (exits t ret b at idle e) h o =
      exit-Inv p mem rounds bounded dispatches v t ret s.base b s.current h at e
  Step-Inv {v} {s} (creates mmap attr start_routine arg t b e mapped) h o =
      let (s₁, a) =
        create-Allocs p mem rounds bounded dispatches removes mmap attr start_routine arg t s.base b
          e in
      let over =
        (unused p mem rounds bounded dispatches removes t s.base s₁ s.joining o a mapped).0 in
      create-Inv p mem rounds bounded dispatches mmap attr start_routine arg t s.base b s.current h
        over e
  Step-Inv {v} {s} (detaches t) h o =
      same-Inv p.max_vcores _ _ _ h (λ v. refl) (λ v. refl) (λ u. ground arith) (λ u. ground arith)
        (λ u. ground arith) refl refl
  Step-Inv {v} {s} (resizes num some_queue) h o = resized-Inv num s h some_queue
  Step-Inv {v} {s} (requests can) h o =
      same-Inv p.max_vcores _ _ _ h (λ v. refl) (λ v. refl) (λ u. refl) (λ u. refl) (λ u. refl) refl
        refl
  Step-Inv {v} {s} (steals can) h o =
      same-Inv p.max_vcores _ _ _ h (λ v. refl) (λ v. refl) (λ u. refl) (λ u. refl) (λ u. refl) refl
        refl
  Step-Inv {v} {s} (shortens ss) h o =
      same-Inv p.max_vcores _ _ _ h (λ v. refl) (λ v. refl) (λ u. refl) (λ u. refl) (λ u. refl) refl
        refl

  Reach-Inv : {s : System} → Reach p mem s → IsInv s × Owed s.base s.joining
  Reach-Inv (start mmap spin_count stackbottom stacksize t b₀ b zero_memory none_dead e) = (
    init-Inv p mem mmap spin_count stackbottom stacksize t b₀ b (omega arith) zero_memory e,
    init-Owed p mem mmap spin_count stackbottom stacksize t b₀ b removes zero_memory none_dead e,
  )
  Reach-Inv (next r step) =
      let (h, o) = Reach-Inv r in
      (
        Step-Inv step h o,
        Step-Owed p mem some_vcore all_vcores rounds bounded dispatches inserts removes step h o,
      )

  -- Where parlib's `uthread_runnable` is the scheduler's, its wait-free list gives back what was
  -- put into it, once, and there is at least one vcore and no more than max_vcores: in every state
  -- that the vcores can reach from `upthread_lib_init` by the steps of Pvcq/System, no thread is
  -- queued twice, no two vcores run the same thread, a thread that a vcore runs is in no queue and
  -- in state UPTH_RUNNING, a thread in state UPTH_RUNNABLE is queued, and one in state UPTH_RUNNING
  -- is run by a vcore. In these steps `upthread_set_num_vcores` is given at least 1, a call of
  -- `pth_thread_runnable` finds the queue counter within bounds whatever the others did, a thread
  -- is joined by at most one other, which does so before its block is freed, and mmap gives no
  -- memory that is still in use.
  pub one_place : {s : System} → Reach p mem s → (t : ℕ) → IsOnce p.max_vcores t s
  one_place {s} r t =
      let inv = (Reach-Inv r).0 in
      let h = inv.places in
      record {
        queued_once = h.once t;
        run_once = λ v w e k. h.apart v w t e k;
        not_both = λ v e. (
          outside p.max_vcores t s.base h.valid (λ q. ground (arith, h.runs v t e)),
          h.runs v t e,
        );
        ready = λ e. omega (arith, h.once t, inv.kept.ready t e);
        active = inv.kept.active t;
      }

  -- Where parlib's `uthread_runnable` is the scheduler's, its wait-free list gives back what was
  -- put into it, once, and there is at least one vcore and no more than max_vcores: in every state
  -- that the vcores can reach from `upthread_lib_init` by the steps of Pvcq/System, the thread in
  -- the joiner slot of another that has not exited is blocked in its join: it is in no queue, no
  -- vcore runs it, and it is in no other such slot. In these steps `upthread_set_num_vcores` is
  -- given at least 1, a call of `pth_thread_runnable` finds the queue counter within bounds
  -- whatever the others did, a thread is joined by at most one other, which does so before its
  -- block is freed, and mmap gives no memory that is still in use.
  pub joiner_waits :
      {s : System}
      → Reach p mem s
      → (target t : ℕ) → (s.base.tcb target).state ≢ exiting
      → (s.base.tcb target).joiner ≡ some t
      → (queued p.max_vcores t s.base ≡ 0)
        × ((v : ℕ) → s.current v ≢ some t)
        × ((u : ℕ) → (s.base.tcb u).state ≢ exiting → (s.base.tcb u).joiner ≡ some t → u ≡ target)
  joiner_waits {s} r target t live slot =
      let h = (Reach-Inv r).0 in
      let (st, _) = h.slots.held target t live slot in
      (
        outside p.max_vcores t s.base h.places.valid (λ q. ground arith),
        (λ v e. ground (arith, h.places.runs v t e)),
        (λ u on e. h.slots.one u target t on live e slot),
      )
