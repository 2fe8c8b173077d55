-- ===== src/Pvcq/Settled.antt =====
-- src/pvcq/upthread.c: every step of Pvcq/System keeps track of who frees which block.
use upthread.Base.{
  ℕ, ◌+◌, ◌≤◌, ◌<◌, ◌≡◌, refl, sym, ap, ◌∙◌, subst, ◌≢◌, true, false, Option, none, some, List,
  arith, ◌==◌, bit, assert, ==_refl, same, bind-eq-some, some_inj, count,
}
use upthread.Tcb.{
  ThreadState, Tcb, blk_joining, running, blk_yielding, blk_sysc, blk_mutex, blk_paused, exiting,
  runnable,
}
use upthread.Pvcq.State.{Pvcq, Platform, to_state, with_tcb}
use upthread.Pvcq.Queues.{odd, placement, pth_thread_runnable}
use upthread.Pvcq.Threads.{
  Memory, free, pth_sched_entry, sched_loop, pth_thread_paused, pth_thread_has_blocked,
  pth_blockon_syscall, yield_cb, upthread_detach,
}
use upthread.Pvcq.State.{can_vcore_request, can_vcore_steal, short_circuit_yield}
use upthread.Pvcq.Lifecycle.{restart_thread}
use upthread.Pvcq.Invariant.{found}
use upthread.Pvcq.System.{
  System, Step, schedules, yields, pauses, blocks, calls_system, unblocks, restarts, joins,
  joins_late, joined, exits, creates, detaches, requests, resizes, steals, shortens,
}
use upthread.Pvcq.Dequeue.{thread_dequeue-Takes}
use upthread.Pvcq.Entering.{IsBounded}
use upthread.Pvcq.State.{set_num_vcores}
use upthread.Pvcq.Moves.{runnable-Enters, Inv, same-Inv, stop-Inv}
use upthread.Pvcq.Owed.{Owed, calm-Owed, enter-Owed}
use upthread.Pvcq.Freeing.{late-Owed}
use upthread.Pvcq.Threads.{run_found}
use upthread.Pvcq.Invariant.{Takes}
use upthread.Pvcq.Places.{Places}
use upthread.Pvcq.Debts.{over_of, dispatched-Enters, join-Owed, exit-Owed, joined-Owed}
use upthread.Pvcq.Renewed.{create-Owed}

pub restart_thread-runs :
    (p : Platform) (mem : Memory) (rounds : List (ℕ → ℕ)) (t sysc : ℕ) (s s' : Pvcq)
    → restart_thread p mem rounds t sysc s ≡ some s'
    → pth_thread_runnable rounds t (with_tcb t (λ b. record b { sysc = none }) s) ≡ s'
unfolding restart_thread
restart_thread-runs p mem rounds t sysc s s' e =
    let (_, _, e₁) = bind-eq-some (assert p.debug _) _ e in
    let (_, _, e₂) = bind-eq-some (assert p.debug _) _ e₁ in some_inj e₂

-- A running thread stops, and neither exits nor waits in a join.
stop-Owed :
    (t : ℕ) (st : ThreadState) (s s' : Pvcq) (joining : ℕ → Option ℕ)
    → Owed s joining
    → (s.tcb t).state ≡ running
    → s'.zombie_list ≡ s.zombie_list
    → s'.tcb ≡ (to_state st t s).tcb
    → st ≢ exiting
    → Owed s' joining
stop-Owed t st s s' joining o ran dead same live =
    let h : Owed (to_state st t s) joining =
      calm-Owed s (to_state st t s) joining o refl (λ u q. ground arith) (λ u q. ground arith)
        (λ u j on e. (λ q. on (ground arith), ground arith)) in
    calm-Owed (to_state st t s) s' joining h dead
      (λ u q. ap (λ (f : ℕ → Tcb). (f u).state) same ∙ q)
      (λ u q. ap (λ (f : ℕ → Tcb). (f u).state) same ∙ q)
      (λ u j on e. (
        (λ q. on (ap (λ (f : ℕ → Tcb). (f u).state) same ∙ q)),
        sym (ap (λ (f : ℕ → Tcb). (f u).joiner) same) ∙ e,
      ))

-- A change of neither the blocks nor the freed ones.
same-Owed :
    (s s' : Pvcq) (joining : ℕ → Option ℕ)
    → Owed s joining
    → s'.zombie_list ≡ s.zombie_list
    → s'.tcb ≡ s.tcb
    → Owed s' joining
same-Owed s s' joining o dead same =
    calm-Owed s s' joining o dead (λ u q. ap (λ (f : ℕ → Tcb). (f u).state) same ∙ q)
      (λ u q. ap (λ (f : ℕ → Tcb). (f u).state) same ∙ q)
      (λ u j on e. (
        (λ q. on (ap (λ (f : ℕ → Tcb). (f u).state) same ∙ q)),
        sym (ap (λ (f : ℕ → Tcb). (f u).joiner) same) ∙ e,
      ))

-- A vcore looks for a thread and runs what it finds.
found-Owed :
    (p : Platform) (m v : ℕ) (b : Pvcq) (joining : ℕ → Option ℕ) (r : Option ℕ × Pvcq)
    (o : Option ℕ) (b' : Pvcq)
    → Owed b joining
    → Takes m v b r
    → run_found p r ≡ some (o, b')
    → Owed b' joining
unfolding run_found
found-Owed p m v b joining (found, s) o b' h k e = runs found e (λ t q. (k.taken t q).0)
  where
    h' : Owed s joining
    h' =
        calm-Owed b s joining h k.same_dead (λ u q. (k.same u).state ∙ q)
          (λ u q. (k.same u).state ∙ q)
          (λ u j on e. ((λ q. on ((k.same u).state ∙ q)), sym (k.same u).joiner ∙ e))

    runs :
        (next : Option ℕ)
        → run_found p (next, s) ≡ some (o, b')
        → ((t : ℕ) → next ≡ some t → (s.tcb t).state ≡ runnable)
        → Owed b' joining
    runs none e may = subst (λ (x : Option ℕ × Pvcq). Owed x.1 joining) (some_inj e) h'
    runs (some t) e may =
        let st = may t refl in
        let (_, _, e') = bind-eq-some (assert p.debug _) _ e in
        subst (λ (x : Option ℕ × Pvcq). Owed x.1 joining) (some_inj e')
          (calm-Owed s _ joining h' refl (λ u q. ground arith) (λ u q. ground arith)
            (λ u j on e. (λ q. on (ground arith), ground arith)))

module _ (p : Platform) (mem : Memory) (some_vcore : 0 < p.num_vcores)
    (all_vcores : p.num_vcores ≤ p.max_vcores) (rounds : ℕ → Pvcq → List (ℕ → ℕ))
    (bounded : (t : ℕ) (s : Pvcq) → IsBounded (rounds t s) s)
    (dispatches : (t : ℕ) (s : Pvcq)
      → p.uthread_runnable t s ≡ pth_thread_runnable (rounds t s) t s)
    (inserts : (t u : ℕ) (l : List ℕ) → count u (mem.wfl_insert t l) ≡ count u l + bit (u == t))
    (removes : (u : ℕ) (l : List ℕ)
      → count u (mem.wfl_remove l).1 + found u (mem.wfl_remove l).0 ≡ count u l) where
  -- A thread becomes runnable that did not wait in a join.
  rerun-Owed :
      (t : ℕ) (s : Pvcq) (c joining : ℕ → Option ℕ)
      → Owed s joining
      → Places p.max_vcores s c
      → placement (s.tcb t).state ≢ odd
      → (s.tcb t).state ≢ blk_joining
      → (s.tcb t).state ≢ exiting
      → Owed (p.uthread_runnable t s) joining
  rerun-Owed t s c joining o places known free live =
      enter-Owed p.max_vcores t s _ joining o free live
        (dispatched-Enters p mem rounds bounded dispatches t s c places known)

  yielded-Owed :
      (v t : ℕ) (st : ThreadState) (s : System)
      → Inv p.max_vcores s.base s.current
      → Owed s.base s.joining
      → s.current v ≡ some t
      → placement st ≢ odd
      → st ≢ blk_joining
      → Owed (p.uthread_runnable t (to_state st t s.base)) s.joining
  yielded-Owed v t st s h o at known free =
      let (h', alone, e) =
        stop-Inv p.max_vcores v t st s.base s.current h at (λ e. known (ap placement e))
          (λ e. known (ap placement e)) in
      let o' =
        stop-Owed t st s.base (to_state st t s.base) s.joining o (h.places.runs v t at) refl refl
          (λ e. known (ap placement e)) in
      rerun-Owed t (to_state st t s.base) _ s.joining o' h'.places
        (λ q. known (ap placement (sym e) ∙ q)) (λ q. free (sym e ∙ q))
        (λ q. known (ap placement (sym e ∙ q)))

  restarted-Owed :
      (others : List (ℕ → ℕ)) (t sysc : ℕ) (b : Pvcq) (s : System)
      → Inv p.max_vcores s.base s.current
      → Owed s.base s.joining
      → (s.base.tcb t).state ≡ blk_sysc
      → restart_thread p mem others t sysc s.base ≡ some b
      → Owed b s.joining
  restarted-Owed others t sysc b s h o st e =
      let s₁ = with_tcb t (λ b. record b { sysc = none }) s.base in
      let st' : (s₁.tcb t).state ≡ blk_sysc = ground (arith, ==_refl t) in
      let h' =
        same-Inv p.max_vcores s.base s₁ s.current h (λ v. refl) (λ v. refl) (λ u. ground arith)
          (λ u. ground arith) (λ u. ground arith) refl refl in
      let o' : Owed s₁ s.joining =
        calm-Owed s.base s₁ s.joining o refl (λ u q. ground arith) (λ u q. ground arith)
          (λ u j on e. (λ q. on (ground arith), ground arith)) in
      subst (λ x. Owed x s.joining) (restart_thread-runs p mem others t sysc s.base b e)
        (enter-Owed p.max_vcores t s₁ _ s.joining o' (λ q. ground arith) (λ q. ground arith)
          (runnable-Enters p.max_vcores others t s₁ s.current h'.places (λ q. ground arith)
            (λ q. absurd (ground arith))))

  pub Step-Owed :
      {v : ℕ} {s s' : System}
      → Step p mem v s s'
      → Inv p.max_vcores s.base s.current
      → Owed s.base s.joining
      → Owed s'.base s'.joining
  unfolding pth_sched_entry sched_loop yield_cb pth_thread_paused pth_thread_has_blocked
      pth_blockon_syscall upthread_detach can_vcore_request can_vcore_steal short_circuit_yield
      set_num_vcores
  Step-Owed {v} {s} (schedules pick b lt idle e) h o =
      found-Owed p p.max_vcores v s.base s.joining _ pick b o
        (thread_dequeue-Takes p v lt some_vcore all_vcores s.base h.places.valid) e
  Step-Owed {v} {s} (yields t at) h o =
      yielded-Owed v t blk_yielding s h o at (λ e. ground arith) (λ e. ground arith)
  Step-Owed {v} {s} (pauses t at) h o =
      yielded-Owed v t blk_paused s h o at (λ e. ground arith) (λ e. ground arith)
  Step-Owed {v} {s} (blocks t true at) h o =
      stop-Owed t blk_mutex s.base _ s.joining o (h.places.runs v t at) refl refl
        (λ e. ground arith)
  Step-Owed {v} {s} (blocks t false at) h o =
      stop-Owed t blk_mutex s.base _ s.joining o (h.places.runs v t at) refl refl
        (λ e. ground arith)
  Step-Owed {v} {s} (calls_system t at) h o =
      stop-Owed t blk_sysc s.base _ s.joining o (h.places.runs v t at) refl refl (λ e. ground arith)
  Step-Owed {v} {s} (unblocks t st) h o =
      rerun-Owed t s.base s.current s.joining o h.places (λ q. ground arith) (λ q. ground arith)
        (λ q. ground arith)
  Step-Owed {v} {s} (restarts others t sysc b st e) h o = restarted-Owed others t sysc b s h o st e
  Step-Owed {v} {s} (joins t target b at idle ne unowed slot e) h o =
      join-Owed p mem rounds bounded dispatches v t target s.base b s.current s.joining h o at idle
        ne unowed slot e
  Step-Owed {v} {s} (joins_late t target at idle ne unowed slot e) h o =
      late-Owed t target s.base s.joining o h.slots (h.places.runs v t at) idle
        (over_of target s.base h.slots slot) unowed
  Step-Owed {v} {s} (joined t target ret b at for e) h o =
      joined-Owed p mem rounds bounded dispatches inserts t target ret s.base b s.joining o h.slots
        (h.places.runs v t at) for e
  Step-Owed {v} {s} (exits t ret b at idle e) h o =
      exit-Owed p mem rounds bounded dispatches inserts v t ret s.base b s.current s.joining h o at
        e
  Step-Owed {v} {s} (creates mmap attr start_routine arg t b e mapped) h o =
      create-Owed p mem rounds bounded dispatches removes mmap attr start_routine arg t s.base b
        s.current s.joining h o mapped e
  Step-Owed {v} {s} (detaches t) h o =
      calm-Owed s.base _ s.joining o refl (λ u q. ground arith) (λ u q. ground arith)
        (λ u j on e. (λ q. on (ground arith), ground arith))
  Step-Owed {v} {s} (resizes num some_queue) h o = same-Owed s.base _ s.joining o refl refl
  Step-Owed {v} {s} (requests can) h o = same-Owed s.base _ s.joining o refl refl
  Step-Owed {v} {s} (steals can) h o = same-Owed s.base _ s.joining o refl refl
  Step-Owed {v} {s} (shortens ss) h o = same-Owed s.base _ s.joining o refl refl
