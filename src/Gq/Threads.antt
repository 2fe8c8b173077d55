-- ===== src/Gq/Threads.antt =====
-- src/gq/upthread.c, lines 152-162 and 196-494: threads are created, yield, exit, join and come
-- back from system calls. A function that parlib suspends in `uthread_yield` is two: the part before
-- and the part after; what `uthread_yield` runs in between is the callback.
use upthread.Base.{
  ℕ, ◌+◌, ◌%◌, ◌^◌, Bool, true, false, not, Option, none, some, ◌>>=◌, ◌>>◌, if◌then◌else◌, ◌==◌,
  is_some, same, assert, ℤ, insert_tail, incr,
}
use upthread.Base.Sums.{update}
use upthread.Tcb.{
  Syscall, Tcb, ThreadState, created, running, exiting, blk_yielding, blk_joining, blk_sysc,
  blk_paused, Attr, DetachState, joinable, stack_size, ptr_sub, zeroed,
}
use upthread.Gq.State.{
  Gq, Platform, init_uthread_tf, uthread_init, uthread_lib_init, uthread_cleanup, destroy_dtls,
  free, allocation_failed, join_detached, with_tcb, to_state, call, get_next_pid,
}
use upthread.Gq.Schedule.{generic_yield, pth_thread_runnable}

-- `atomic_swap_ptr(&target->joiner, new)`: the old value, and the memory with the new one.
unfoldable pub swap_joiner : ℕ → ℕ → Gq → Option ℕ × Gq
swap_joiner target new s =
    ((s.tcb target).joiner, with_tcb target (λ b. record b { joiner = some new }) s)

-- `upthread_getattr_np`
unfoldable pub getattr_np : Tcb → Attr
getattr_np th = record {
  stackaddr = some (ptr_sub th.stacktop th.stacksize);
  stacksize = th.stacksize;
  detachstate = if th.detached then DetachState.detached else joinable;
}

abbrev wants_detached : Attr → Bool
wants_detached a = elim a.detachstate [ joinable ↦ false | DetachState.detached ↦ true ]

-- The block that `upthread_create` fills before it allocates the stack: "respect the attributes".
abbrev apply_attr : Option Attr → Tcb → Tcb
apply_attr none b = b
apply_attr (some a) b = record b {
  stacksize = if a.stacksize == 0 then b.stacksize else a.stacksize % 2 ^ 32;
  detached = if wants_detached a then true else b.detached;
}

-- The block of the main thread, whose stack the platform gives.
abbrev main_tcb : ℕ → ℕ → ℕ → Tcb
main_tcb pid stackbottom stacksize = record zeroed {
  id = pid;
  stacktop = stackbottom + stacksize;
  stacksize = stacksize % 2 ^ 32;
  detached = true;
  state = running;
}

-- The end of `__upthread_allocate_stack`.
abbrev mapped : Option ℕ → Tcb → Bool × Tcb
mapped none b = (true, b)
mapped (some stackbot) b = (false, record b { stacktop = stackbot + b.stacksize })

abbrev pub is_blocked : ThreadState → Bool
is_blocked blk_sysc = true
is_blocked _ = false

-- The target of `upthread_join` before the joiner may have to wait.
pub data JoinStart : Type 0 where
  rejected : JoinStart  -- it is detached: return -1
  suspend : JoinStart  -- `uthread_yield(TRUE, __pth_join_cb, join_target)`
  finished : JoinStart  -- it has exited

module _ (p : Platform) where
  -- `__upthread_allocate_stack`, with what mmap returned: whether it failed, and the block.
  unfoldable pub allocate_stack : Option ℕ → Tcb → Option (Bool × Tcb)
  allocate_stack stackbot b = do assert p.debug (not (b.stacksize == 0)); some (mapped stackbot b)

  -- The block of a new thread, from its number and the caller's arguments.
  unfoldable pub new_tcb : ℕ → Option Attr → ℕ → ℕ → Tcb
  new_tcb pid attr start_routine arg =
      let b =
        apply_attr attr
          (record zeroed { stacksize = stack_size p.pgsize % 2 ^ 32; state = created; id = pid }) in
      record b { start_routine = start_routine; arg = arg }

  -- `upthread_create`: `addr` is what the allocator returned, `stackbot` what mmap returned.
  unfoldable pub upthread_create : Option ℕ → Option ℕ → Option Attr → ℕ → ℕ → Gq → Option (ℕ × Gq)
  unfolding get_next_pid new_tcb allocate_stack
  upthread_create none stackbot attr start_routine arg s = none
  upthread_create (some t) stackbot attr start_routine arg s = do
    let (pid, s₁) = get_next_pid s
    (failed, b) ← allocate_stack stackbot (new_tcb pid attr start_routine arg)
    let s₂ = record s₁ { tcb = update s₁.tcb t b }
    let s₃ = if failed then call allocation_failed s₂ else s₂
    let s₄ = call (init_uthread_tf t (ptr_sub b.stacktop b.stacksize) b.stacksize) s₃
    some (t, p.uthread_runnable t (call (uthread_init t) s₄))

  -- `__upthread_free_stack`: the assertion's argument unmaps the stack in both builds.
  unfoldable pub free_stack : Tcb → Option (Unit {0})
  free_stack b = assert p.debug (p.munmap (ptr_sub b.stacktop b.stacksize) b.stacksize)

  -- `pth_thread_paused`
  unfoldable pub pth_thread_paused : ℕ → Gq → Option Gq
  unfolding generic_yield
  pth_thread_paused t s = do
    s₁ ← generic_yield t s
    some (p.uthread_runnable t (to_state blk_paused t s₁))

  -- `__pth_yield_cb`
  unfoldable pub yield_cb : ℕ → Gq → Option Gq
  unfolding generic_yield
  yield_cb t s = do s₁ ← generic_yield t s; some (p.uthread_runnable t (to_state blk_yielding t s₁))

  -- `upthread_join` up to the yield.
  unfoldable pub join_start : ℕ → Gq → Option (JoinStart × Gq)
  join_start target s =
      if (s.tcb target).detached
      then some (rejected, call (join_detached target) s)
      else if not (is_some (s.tcb target).joiner)
      then some (suspend, s)
      else (do assert p.debug (same (s.tcb target).joiner (some target)); some (finished, s))

  -- The last `if` of `__pth_join_cb`: what the swap gave back was the target, which had exited.
  unfoldable pub join_wake : Option ℕ → ℕ → ℕ → Gq → Option Gq
  join_wake none t target s = some s
  join_wake (some temp_pth) t target s = do
    assert p.debug (temp_pth == target)
    some (p.uthread_runnable t s)

  -- `__pth_join_cb`
  unfoldable pub join_cb : ℕ → ℕ → Gq → Option Gq
  unfolding generic_yield swap_joiner join_wake
  join_cb t target s = do
    s₁ ← generic_yield t s
    let (temp_pth, s₂) = swap_joiner target t (to_state blk_joining t s₁) in
        join_wake temp_pth t target s₂

  -- `upthread_join` after the yield: the value that the target left, and its block is freed.
  unfoldable pub join_finish : ℕ → Gq → ℕ × Gq
  join_finish target s = ((s.tcb target).retval, call (free target) s)

  -- The last `if` of `__pth_exit_cb`.
  unfoldable pub exit_wake : Option ℕ → Gq → Gq
  exit_wake none s = s
  exit_wake (some temp_pth) s = p.uthread_runnable temp_pth s

  -- The branch on `upthread->detached` of `__pth_exit_cb`.
  unfoldable pub exit_release : ℕ → Gq → Gq
  unfolding swap_joiner exit_wake
  exit_release t s =
      if (s.tcb t).detached
      then call (free t) s
      else let (temp_pth, s₁) = swap_joiner t t s in exit_wake temp_pth s₁

  -- `upthread_exit` up to the yield.
  unfoldable pub exit_start : ℕ → ℕ → Gq → Gq
  exit_start t ret s = call (destroy_dtls t) (with_tcb t (λ b. record b { retval = ret }) s)

  -- `__pth_exit_cb`
  unfoldable pub exit_cb : ℕ → Gq → Option Gq
  unfolding generic_yield exit_release free_stack
  exit_cb t s = do
    s₁ ← generic_yield t s
    free_stack (s₁.tcb t)
    some (exit_release t (call (uthread_cleanup t) (to_state exiting t s₁)))

  -- `restart_thread` on the thread that the call noted; `sysc` is the call's address.
  unfoldable pub restart_thread : ℕ → ℕ → Gq → Option Gq
  unfolding pth_thread_runnable
  restart_thread t sysc s = do
    assert p.debug (is_blocked (s.tcb t).state)
    assert p.debug (same (s.tcb t).sysc (some sysc))
    some (pth_thread_runnable t (with_tcb t (λ b. record b { sysc = none }) s))

  -- `pth_handle_syscall`, on a message that may be NULL and holds a pointer that may be NULL: without
  -- a call or a thread an assertion fails or a null pointer is followed.
  unfoldable pub pth_handle_syscall : Option (Option Syscall) → Gq → Option Gq
  unfolding restart_thread
  pth_handle_syscall none s = some s
  pth_handle_syscall (some ev_arg3) s = do
    sysc ← ev_arg3
    ut_restartee ← sysc.u_data
    restart_thread ut_restartee sysc.address s

  -- `upthread_lib_init`: the control block of the main thread, at the address `addr` that the
  -- allocator returned, goes to the active queue. The environment may set the spin count.
  unfoldable pub upthread_lib_init : Option ℤ → Option ℕ → ℕ → ℕ → Gq → Option Gq
  unfolding get_next_pid
  upthread_lib_init spin_count none stackbottom stacksize s = none
  upthread_lib_init spin_count (some t) stackbottom stacksize s = do
    let (pid, s₁) = get_next_pid s
    assert p.debug (pid == 0)
    some (
        call (uthread_lib_init t) (record s₁ {
          max_spin_count = elim spin_count [ none ↦ s₁.max_spin_count | some n ↦ n ];
          tcb = update s₁.tcb t (main_tcb pid stackbottom stacksize);
          threads_active = incr s₁.threads_active;
          active_queue = insert_tail s₁.active_queue t;
        }))
