-- ===== src/Pvcq/Lifecycle.antt =====
-- src/pvcq/upthread.c, lines 409-657: threads are created, joined and exit, and come back from
-- system calls. A function that parlib suspends in `uthread_yield` is two: the part before and the
-- part after; what `uthread_yield` runs in between is the callback.
use upthread.Base.{
  ℕ, ◌+◌, ◌%◌, ◌^◌, Bool, true, false, not, Option, none, some, List, [], ◌==◌, if◌then◌else◌,
  assert, ◌>>=◌, ◌>>◌, is_some, same, ℤ, pos,
}
use upthread.Tcb.{
  Syscall, Tcb, ThreadState, created, running, exiting, blk_joining, blk_sysc, Attr, DetachState,
  joinable, stack_size, ptr_sub,
}
use upthread.Pvcq.State.{
  VcMgmt, Pvcq, Platform, init_uthread_tf, uthread_init, uthread_lib_init, uthread_cleanup,
  destroy_dtls, join_detached, with_tcb, to_state, call, get_next_pid, set_num_vcores,
}
use upthread.Pvcq.Queues.{pth_thread_runnable}
use upthread.Pvcq.Threads.{Memory, alloc, free}

-- `atomic_swap_ptr(&target->joiner, new)`: the old value, and the memory with the new one.
unfoldable pub swap_joiner : ℕ → ℕ → Pvcq → Option ℕ × Pvcq
swap_joiner target new s =
    ((s.tcb target).joiner, with_tcb target (λ b. record b { joiner = some new }) s)

-- `upthread_getattr_np`
unfoldable pub getattr_np : Tcb → Attr
getattr_np th = record {
  stackaddr = some (ptr_sub th.stacktop th.stacksize);
  stacksize = th.stacksize;
  detachstate = if th.detached then DetachState.detached else joinable;
}

abbrev wants_detached : Option Attr → Bool
wants_detached none = false
wants_detached (some a) = elim a.detachstate [ joinable ↦ false | DetachState.detached ↦ true ]

-- The size that `upthread_create` asks for.
abbrev wanted_size : ℕ → Option Attr → ℕ
wanted_size pgsize none = stack_size pgsize
wanted_size pgsize (some a) = if a.stacksize == 0 then stack_size pgsize else a.stacksize

abbrev is_blocked : ThreadState → Bool
is_blocked blk_sysc = true
is_blocked _ = false

-- The target of `upthread_join` before the joiner may have to wait.
pub data JoinStart : Type 0 where
  rejected : JoinStart  -- it is detached: return -1
  suspend : JoinStart  -- `uthread_yield(TRUE, __pth_join_cb, join_target)`
  finished : JoinStart  -- it has exited

-- The queues of all vcores as `upthread_lib_init` sets them up.
abbrev pub first_vc : ℕ → VcMgmt
first_vc i = record { tqueue = []; tqsize = pos 0; rseed = i }

module _ (p : Platform) (mem : Memory) where
  -- `upthread_create` up to the return: the new thread, whose block may be that of a dead one.
  unfoldable pub upthread_create : (ℕ → Option ℕ) → Option Attr → ℕ → ℕ → Pvcq → Option (ℕ × Pvcq)
  unfolding alloc get_next_pid
  upthread_create mmap attr start_routine arg s = do
    (t, s₁) ← alloc p mem mmap (wanted_size p.pgsize attr) s
    let (pid, s₂) = get_next_pid s₁
    let s₃ =
        with_tcb t
          (λ b. record b {
            state = created;
            id = pid;
            detached = wants_detached attr;
            joiner = none;
          })
          s₂
    let b = s₃.tcb t
    let s₄ = call (init_uthread_tf t (ptr_sub b.stacktop b.stacksize) b.stacksize) s₃
    let s₅ = with_tcb t (λ b. record b { start_routine = start_routine; arg = arg }) s₄
    some (t, p.uthread_runnable t (call (uthread_init t) s₅))

  -- `upthread_join` up to the yield.
  unfoldable pub join_start : ℕ → Pvcq → Option (JoinStart × Pvcq)
  join_start target s =
      if (s.tcb target).detached
      then some (rejected, call (join_detached target) s)
      else if not (is_some (s.tcb target).joiner)
      then some (suspend, s)
      else (do assert p.debug (same (s.tcb target).joiner (some target)); some (finished, s))

  -- The last `if` of `__pth_join_cb`: what the swap gave back was the target, which had exited.
  unfoldable pub join_wake : Option ℕ → ℕ → ℕ → Pvcq → Option Pvcq
  join_wake none t target s = some s
  join_wake (some temp_pth) t target s = do
    assert p.debug (temp_pth == target)
    some (p.uthread_runnable t s)

  -- `__pth_join_cb`
  unfoldable pub join_cb : ℕ → ℕ → Pvcq → Option Pvcq
  unfolding swap_joiner join_wake
  join_cb t target s =
      let (temp_pth, s₁) = swap_joiner target t (to_state blk_joining t s) in
      join_wake temp_pth t target s₁

  -- `upthread_join` after the yield: the value that the target left, and its block is freed.
  unfoldable pub join_finish : ℕ → Pvcq → Option (ℕ × Pvcq)
  unfolding free
  join_finish target s = do s₁ ← free p mem target s; some ((s.tcb target).retval, s₁)

  -- The last `if` of `__pth_exit_cb`.
  unfoldable pub exit_wake : Option ℕ → Pvcq → Pvcq
  exit_wake none s = s
  exit_wake (some temp_pth) s = p.uthread_runnable temp_pth s

  -- `upthread_exit` up to the yield.
  unfoldable pub exit_start : ℕ → ℕ → Pvcq → Pvcq
  exit_start t ret s = call (destroy_dtls t) (with_tcb t (λ b. record b { retval = ret }) s)

  -- `__pth_exit_cb`
  unfoldable pub exit_cb : ℕ → Pvcq → Option Pvcq
  unfolding swap_joiner exit_wake free
  exit_cb t s =
      let s₁ = call (uthread_cleanup t) (to_state exiting t s) in
      let (temp_pth, s₂) = swap_joiner t t s₁ in
      if (s₁.tcb t).detached then free p mem t s₁ else some (exit_wake temp_pth s₂)

  -- `restart_thread` on the thread that the call noted; `sysc` is the call's address.
  unfoldable pub restart_thread : List (ℕ → ℕ) → ℕ → ℕ → Pvcq → Option Pvcq
  unfolding pth_thread_runnable
  restart_thread rounds t sysc s = do
    assert p.debug (is_blocked (s.tcb t).state)
    assert p.debug (same (s.tcb t).sysc (some sysc))
    some (pth_thread_runnable rounds t (with_tcb t (λ b. record b { sysc = none }) s))

  -- `pth_handle_syscall`, on a message that may be NULL and holds a pointer that may be NULL: without
  -- a call or a thread an assertion fails or a null pointer is followed.
  unfoldable pub pth_handle_syscall : List (ℕ → ℕ) → Option (Option Syscall) → Pvcq → Option Pvcq
  unfolding restart_thread
  pth_handle_syscall rounds none s = some s
  pth_handle_syscall rounds (some ev_arg3) s = do
    sysc ← ev_arg3
    ut_restartee ← sysc.u_data
    restart_thread rounds ut_restartee sysc.address s

  -- `upthread_lib_init`; the environment may set the spin count, and parlib knows the main stack.
  unfoldable pub upthread_lib_init : (ℕ → Option ℕ) → Option ℤ → ℕ → ℕ → Pvcq → Option (ℕ × Pvcq)
  unfolding set_num_vcores alloc get_next_pid
  upthread_lib_init mmap spin_count stackbottom stacksize s = do
    let s₁ = set_num_vcores p (pos p.max_vcores) (record s { vc_mgmt = first_vc })
    let s₂ = record s₁ {
      max_spin_count = elim spin_count [ none ↦ s₁.max_spin_count | some n ↦ n ];
    }
    (t, s₃) ← alloc p mem mmap 0 s₂
    let (pid, s₄) = get_next_pid s₃
    let s₅ =
        with_tcb t
          (λ b. record b {
            id = pid;
            stacktop = stackbottom + stacksize;
            stacksize = stacksize % 2 ^ 32;
            detached = true;
            state = running;
            joiner = none;
          })
          s₄
    assert p.debug (pid == 0)
    some (t, call (uthread_lib_init t) s₅)
