-- ===== src/Pvcq/System.antt =====
-- src/pvcq/upthread.c: the vcores of the scheduler, which run threads, look for them and start, stop
-- and wake them in any order. A step is what one vcore does from one such call to its return.
use upthread.Base.{
  ℕ, ◌<◌, ◌≡◌, ◌≢◌, ◌⊎◌, Bool, true, false, Option, none, some, List, [], count, ℤ, positive,
}
use upthread.Base.Sums.{update}
use upthread.Tcb.{ThreadState, created, exiting, blk_joining, blk_sysc, blk_mutex, Attr, zeroed}
use upthread.Pvcq.State.{
  Pvcq, Platform, can_vcore_request, can_vcore_steal, short_circuit_yield, set_num_vcores,
}
use upthread.Pvcq.Threads.{
  Memory, pth_sched_entry, pth_thread_paused, pth_thread_has_blocked, pth_blockon_syscall, yield_cb,
  upthread_detach,
}
use upthread.Pvcq.Lifecycle.{
  upthread_create, join_start, finished, join_cb, join_finish, exit_start, exit_cb, restart_thread,
  upthread_lib_init,
}

-- `current_uthread` of each vcore is parlib's. `joining` has the `join_target` of a thread in
-- `upthread_join`, from its callback to the return.
pub record System : Type 0 where
  pub base : Pvcq
  pub current : ℕ → Option ℕ
  pub joining : ℕ → Option ℕ

-- A thread of vcore `v` has stopped in its callback, which left the scheduler at `b`.
abbrev pub stopped : ℕ → Pvcq → System → System
stopped v b s = record s { base = b; current = update s.current v none }

-- A block that no thread has, or whose thread has exited.
abbrev pub is_over : ThreadState → Bool
is_over created = true
is_over exiting = true
is_over _ = false

-- Nobody has freed the block of `target`, or has come back to free it after a join.
abbrev pub IsUnowed : ℕ → Pvcq → (ℕ → Option ℕ) → Type 0
IsUnowed target b joining =
    (count target b.zombie_list ≡ 0)
    × ((u : ℕ) → joining u ≡ some target → (b.tcb u).state ≡ blk_joining)

module _ (p : Platform) (mem : Memory) where
  -- A step of vcore `v`. A thread is joined by at most one other, and not after its block was freed. At
  -- least one queue is set for new threads. mmap gives no block of a thread that has not exited or
  -- that is still to be freed.
  pub data Step (v : ℕ) (s : System) : System → Type 0 where
    schedules :
        (o : Option ℕ) (b : Pvcq)
        → v < p.max_vcores
        → s.current v ≡ none
        → pth_sched_entry p [] none v s.base ≡ some (o, b)
        → Step v s (record s { base = b; current = update s.current v o })
    yields : (t : ℕ) → s.current v ≡ some t → Step v s (stopped v (yield_cb p t s.base) s)
    pauses : (t : ℕ) → s.current v ≡ some t → Step v s (stopped v (pth_thread_paused p t s.base) s)
    blocks :
        (t : ℕ) (justice : Bool)
        → s.current v ≡ some t
        → Step v s (stopped v (pth_thread_has_blocked t justice s.base) s)
    calls_system :
        (t : ℕ) → s.current v ≡ some t → Step v s (stopped v (pth_blockon_syscall t s.base).1 s)
    unblocks :
        (t : ℕ)
        → (s.base.tcb t).state ≡ blk_mutex
        → Step v s (record s { base = p.uthread_runnable t s.base })
    restarts :
        (rounds : List (ℕ → ℕ)) (t sysc : ℕ) (b : Pvcq)
        → (s.base.tcb t).state ≡ blk_sysc
        → restart_thread p mem rounds t sysc s.base ≡ some b
        → Step v s (record s { base = b })
    joins :
        (t target : ℕ) (b : Pvcq)
        → s.current v ≡ some t
        → s.joining t ≡ none
        → t ≢ target
        → IsUnowed target s.base s.joining
        → ((s.base.tcb target).joiner ≡ none) ⊎ ((s.base.tcb target).joiner ≡ some target)
        → join_cb p mem t target s.base ≡ some b
        → Step v s (record (stopped v b s) { joining = update s.joining t (some target) })
    joins_late :
        (t target : ℕ)
        → s.current v ≡ some t
        → s.joining t ≡ none
        → t ≢ target
        → IsUnowed target s.base s.joining
        → (s.base.tcb target).joiner ≡ some target
        → join_start p mem target s.base ≡ some (finished, s.base)
        → Step v s (record s { joining = update s.joining t (some target) })
    joined :
        (t target ret : ℕ) (b : Pvcq)
        → s.current v ≡ some t
        → s.joining t ≡ some target
        → join_finish p mem target s.base ≡ some (ret, b)
        → Step v s (record s { base = b; joining = update s.joining t none })
    exits :
        (t ret : ℕ) (b : Pvcq)
        → s.current v ≡ some t
        → s.joining t ≡ none
        → exit_cb p mem t (exit_start p mem t ret s.base) ≡ some b
        → Step v s (stopped v b s)
    creates :
        (mmap : ℕ → Option ℕ) (attr : Option Attr) (start_routine arg t : ℕ) (b : Pvcq)
        → upthread_create p mem mmap attr start_routine arg s.base ≡ some (t, b)
        → ((mem.wfl_remove s.base.zombie_list).0 ≡ none
            → (is_over (s.base.tcb t).state ≡ true) × IsUnowed t s.base s.joining)
        → Step v s (record s { base = b })
    detaches : (t : ℕ) → Step v s (record s { base = upthread_detach t s.base })
    resizes :
        (num : ℤ) → positive num ≡ true → Step v s (record s { base = set_num_vcores p num s.base })
    requests : (can : Bool) → Step v s (record s { base = can_vcore_request can s.base })
    steals : (can : Bool) → Step v s (record s { base = can_vcore_steal can s.base })
    shortens : (ss : Bool) → Step v s (record s { base = short_circuit_yield ss s.base })

  -- After `upthread_lib_init`, in zeroed memory, the main thread runs on vcore 0.
  pub data Reach : System → Type 0 where
    start :
        (mmap : ℕ → Option ℕ) (spin_count : Option ℤ) (stackbottom stacksize t : ℕ) (b₀ b : Pvcq)
        → b₀.tcb ≡ (λ _. zeroed)
        → b₀.zombie_list ≡ []
        → upthread_lib_init p mem mmap spin_count stackbottom stacksize b₀ ≡ some (t, b)
        → Reach (record { base = b; current = update (λ _. none) 0 (some t); joining = λ _. none })
    next : {v : ℕ} {s s' : System} → Reach s → Step v s s' → Reach s'
