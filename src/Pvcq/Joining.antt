-- ===== src/Pvcq/Joining.antt =====
-- src/pvcq/upthread.c, lines 500-590: a join and the exit of its target, in either order.
use upthread.Base.{
  ℕ, ◌+◌, ◌≤◌, ◌<◌, ◌≡◌, refl, ap, ◌∙◌, subst, ◌≢◌, inl, inr, Bool, true, false, none, some, List,
  arith, ltb, ◌==◌, if◌then◌else◌, bit, assert-true, ==_refl, Bool-cases, same, insert_tail, count,
}
use upthread.Base.Sums.{total}
use upthread.Tcb.{blk_joining, runnable}
use upthread.Pvcq.State.{VcMgmt, Pvcq, Platform, call, uthread_cleanup, to_state, with_tcb}
use upthread.Pvcq.State as State
use upthread.Pvcq.Queues.{insert, pth_thread_runnable, placement, is_created, odd}
use upthread.Pvcq.Threads.{Memory, free, unmapped}
use upthread.Pvcq.Lifecycle.{join_wake, join_cb, join_finish, exit_wake, exit_cb, exit_start}
use upthread.Pvcq.Invariant.{IsValid, queued}
use upthread.Pvcq.Swapping.{cleaned, waiting, exit_cb-swaps, join_cb-swaps}
use upthread.Pvcq.Placing.{to_head, placed_old, Queues, runnable-Queues}

-- A change of threads that are in no queue.
touched-IsValid :
    (s s' : Pvcq)
    → s'.vc_mgmt ≡ s.vc_mgmt
    → ((u v : ℕ) → 1 ≤ count u (s.vc_mgmt v).tqueue → (s'.tcb u).state ≡ (s.tcb u).state)
    → IsValid s
    → IsValid s'
touched-IsValid s s' e same w = record {
  sized = λ v. ground (arith, w.sized v, ap (λ (f : ℕ → VcMgmt). f v) e);
  queued_runnable =
      λ u v h. ground (arith, w.queued_runnable u v, same u v, ap (λ (f : ℕ → VcMgmt). f v) e);
}

if-retval :
    {ret : ℕ} (u : ℕ) (b : Bool) (x y : Pvcq)
    → (x.tcb u).retval ≡ ret
    → (y.tcb u).retval ≡ ret
    → ((if b then x else y).tcb u).retval ≡ ret
if-retval u true x y h k = h
if-retval u false x y h k = k

runnable-retval :
    (rounds : List (ℕ → ℕ)) (t u : ℕ) (s : Pvcq)
    → (s.tcb t).state ≡ blk_joining
    → ((pth_thread_runnable rounds t s).tcb u).retval ≡ (s.tcb u).retval
unfolding pth_thread_runnable
runnable-retval rounds t u s e =
    let known : placement (s.tcb t).state ≢ odd = λ h. ground arith in
    let old : is_created (s.tcb t).state ≡ false = ground arith in
    rw (placed_old rounds t (placement (s.tcb t).state) s known old)
      (if-retval u s.can_adjust_vcores _ _ (ground arith) (ground arith))

module _ (p : Platform) (mem : Memory) (rounds : List (ℕ → ℕ))
    (dispatches : (t : ℕ) (s : Pvcq) → p.uthread_runnable t s ≡ pth_thread_runnable rounds t s)
    (unmaps : (base size : ℕ) → mem.munmap base size ≡ true) where
  free-done : (t : ℕ) (s : Pvcq) → (s' : Pvcq) × (free p mem t s ≡ some s')
  unfolding free
  free-done t s = elim (Bool-cases (ltb (mem.wfl_size s.zombie_list) 1000)) [
    | inl few ↦ (record s { zombie_list = mem.wfl_insert t s.zombie_list }, rw few refl)
    | inr many ↦
        let (base, size) = unmapped p mem (s.tcb t) in
        (
          call (State.munmap base size) s,
          rw (many, assert-true p.debug (mem.munmap base size) (unmaps base size)) refl,
        )
  ]

  join_finish-value :
      (target ret : ℕ) (s : Pvcq)
      → (s.tcb target).retval ≡ ret
      → (s' : Pvcq) × (join_finish p mem target s ≡ some (ret, s'))
  unfolding join_finish
  join_finish-value target ret s e =
      let (s', freed) = free-done target s in (s', rw freed (rw e refl))

  exit-first :
      (t : ℕ) (s : Pvcq)
      → (s.tcb t).detached ≡ false
      → (s.tcb t).joiner ≡ none
      → exit_cb p mem t s ≡ some (cleaned t s)
  unfolding exit_wake
  exit-first t s joinable slot = exit_cb-swaps p mem t none s joinable slot

  exit-second :
      (t j : ℕ) (s : Pvcq)
      → (s.tcb t).detached ≡ false
      → (s.tcb t).joiner ≡ some j
      → exit_cb p mem t s ≡ some (pth_thread_runnable rounds j (cleaned t s))
  unfolding exit_wake
  exit-second t j s joinable slot =
      exit_cb-swaps p mem t (some j) s joinable slot ∙ ap some (dispatches j (cleaned t s))

  join-first :
      (t target : ℕ) (s : Pvcq)
      → (s.tcb target).joiner ≡ none
      → join_cb p mem t target s ≡ some (waiting t target s)
  unfolding join_wake
  join-first t target s slot = join_cb-swaps p mem t target none s slot

  join_wake-done :
      (t target : ℕ) (s : Pvcq)
      → join_wake p mem (some target) t target s ≡ some (pth_thread_runnable rounds t s)
  unfolding join_wake
  join_wake-done t target s =
      rw (assert-true p.debug (target == target) (==_refl target)) (ap some (dispatches t s))

  join-second :
      (t target : ℕ) (s : Pvcq)
      → (s.tcb target).joiner ≡ some target
      → join_cb p mem t target s ≡ some (pth_thread_runnable rounds t (waiting t target s))
  join-second t target s slot =
      join_cb-swaps p mem t target (some target) s slot
      ∙ join_wake-done t target (waiting t target s)

  -- That a join and an exit that began in `s` have met in `s'`: the joiner is runnable and stands last
  -- in the queue of the vcore that it preferred, every other thread is queued as often as before, and
  -- the join gives the value that the target exited with.
  pub record Meet (m t target ret : ℕ) (s s' : Pvcq) : Type 0 where
    pub valid : IsValid s'
    pub kept : (u : ℕ) → queued m u s' ≡ queued m u s + bit (u == t)
    pub may_run : (s'.tcb t).state ≡ runnable
    pub placed_in :
        (s'.vc_mgmt (s.tcb t).preferred_vcq).tqueue
        ≡ insert_tail (s.vc_mgmt (s.tcb t).preferred_vcq).tqueue t
    pub value : (s₁ : Pvcq) × (join_finish p mem target s' ≡ some (ret, s₁))

  runs-Meet :
      (m t target ret : ℕ) (s s₁ : Pvcq)
      → s₁.vc_mgmt ≡ s.vc_mgmt
      → IsValid s₁
      → (s₁.tcb t).state ≡ blk_joining
      → (s₁.tcb t).preferred_vcq ≡ (s.tcb t).preferred_vcq
      → (s.tcb t).preferred_vcq < m
      → (s₁.tcb target).retval ≡ ret
      → Meet m t target ret s (pth_thread_runnable rounds t s₁)
  runs-Meet m t target ret s s₁ same valid st pr below left =
      let q : Queues m t s₁ (pth_thread_runnable rounds t s₁) =
        runnable-Queues m rounds t s₁ (ground (arith, pr, below)) (λ h. ground arith) (ground arith)
          valid in
      record {
        valid = q.valid;
        kept = λ u.
            q.kept u
            ∙ ap (λ (f : ℕ → VcMgmt). total (λ (vc : VcMgmt). count u vc.tqueue) m f + bit (u == t))
                same;
        may_run = q.may_run;
        placed_in =
            subst
              (λ v.
                ((pth_thread_runnable rounds t s₁).vc_mgmt v).tqueue
                ≡ insert_tail (s.vc_mgmt v).tqueue t)
              pr
              (q.placed_in
                ∙ ap
                    (λ x.
                      (insert (to_head (placement x)) t
                        (s₁.vc_mgmt (s₁.tcb t).preferred_vcq)).tqueue)
                    st
                ∙ ap (λ (f : ℕ → VcMgmt). insert_tail (f (s₁.tcb t).preferred_vcq).tqueue t) same);
        value = join_finish-value target ret _ (runnable-retval rounds t target s₁ st ∙ left);
      }

  -- Where parlib's `uthread_runnable` is the scheduler's and munmap succeeds, from a state with valid
  -- queues in which neither thread is queued and the target is joinable and not joined yet: if the
  -- target exits and then the callback of the join runs, and if the callback runs first, every
  -- assertion holds, the joiner is runnable and queued once, last in the queue of the vcore that it
  -- prefers, no other thread is queued or lost, and the join gives the value of the exit.
  pub joined_once :
      (m t target ret : ℕ) (s : Pvcq)
      → t ≢ target
      → IsValid s
      → ((v : ℕ) → count t (s.vc_mgmt v).tqueue ≡ 0)
      → ((v : ℕ) → count target (s.vc_mgmt v).tqueue ≡ 0)
      → (s.tcb t).preferred_vcq < m
      → (s.tcb target).detached ≡ false
      → (s.tcb target).joiner ≡ none
      → ((s₁ s₂ : Pvcq) × (exit_cb p mem target (exit_start p mem target ret s) ≡ some s₁)
          × (join_cb p mem t target s₁ ≡ some s₂)
          × Meet m t target ret s s₂)
        × ((s₁ s₂ : Pvcq) × (join_cb p mem t target s ≡ some s₁)
            × (exit_cb p mem target (exit_start p mem target ret s₁) ≡ some s₂)
            × Meet m t target ret s s₂)
  unfolding exit_start
  joined_once m t target ret s ne w out out' below joinable slot =
      let s₀ = exit_start p mem target ret s in
      let gone = cleaned target s₀ in
      let late = waiting t target gone in
      let joined = waiting t target s in
      let after = cleaned target (exit_start p mem target ret joined) in
      (
        (
          gone,
          pth_thread_runnable rounds t late,
          exit-first target s₀ (ground arith) (ground arith),
          join-second t target gone (ground (arith, ==_refl target)),
          runs-Meet m t target ret s late refl
              (touched-IsValid s late refl (λ u v h. ground (arith, out v, out' v)) w)
              (ground (arith, ==_refl t)) (ground (arith, ==_refl t)) below
              (ground (arith, ==_refl target)),
        ),
        (
          joined,
          pth_thread_runnable rounds t after,
          join-first t target s slot,
          exit-second target t (exit_start p mem target ret joined) (ground arith)
              (ground (arith, ==_refl target)),
          runs-Meet m t target ret s after refl
              (touched-IsValid s after refl (λ u v h. ground (arith, out v, out' v)) w)
              (ground (arith, ==_refl t)) (ground (arith, ==_refl t)) below
              (ground (arith, ==_refl target)),
        ),
      )
