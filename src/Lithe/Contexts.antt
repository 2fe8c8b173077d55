-- ===== src/Lithe/Contexts.antt =====
-- src/lithe/upthread.c and src/lithe/upthread-types.h: contexts are allocated, created, joined and exit;
-- lithe's fork-join scheduler runs them. What suspends a thread in lithe is two functions: the part
-- before, and what comes after; lithe runs the callback in between.
use upthread.Base.{
  ℕ, ◌+◌, ◌*◌, ◌%◌, ◌^◌, Bool, true, false, not, Option, none, some, List, ◌∷◌, ltb, ◌==◌,
  if◌then◌else◌, assert, ◌>>=◌, ◌>>◌, is_some, same, ℤ, negsuc, ◌-◌,
}
use upthread.Base.Sums.{update}
use upthread.Tcb.{Attr, DetachState, joinable, stack_size, ptr_sub}

-- `struct upthread_lithe_context`, and of lithe's context at its start what the file names.
pub record Context : Type 0 where
  pub stack_offset : ℕ
  pub bottom : ℕ
  pub size : ℕ
  pub detached : Bool
  pub joiner : Option ℕ
  pub start_routine : ℕ
  pub arg : ℕ
  pub retval : ℕ

-- Calls out of the file that return nothing to it, newest first in `calls`.
pub data Call : Type 0 where
  hart_request : ℤ → Call
  lib_init : Call
  sched_init : (main : ℕ) → Call
  sched_enter : Call
  context_init : ℕ → Call
  context_cleanup : ℕ → Call
  context_unblock : ℕ → Call
  context_yield : Call
  context_exits : Call
  destroy_dtls : Call
  munmap : (base size : ℕ) → Call
  join_detached : ℕ → Call

pub record Lithe : Type 0 where
  pub zombie_list : List ℕ
  pub rseed : ℕ
  pub ctx : ℕ → Context
  pub calls : List Call

-- What is not in this repository: the sizes of the platform, ROUNDUP, `rand_r` with the seed it
-- leaves, parlib's wait-free list, and whether `munmap` succeeds.
pub record Platform : Type 0 where
  pub debug : Bool
  pub max_vcores : ℕ
  pub pgsize : ℕ
  pub cl_size : ℕ
  pub ctx_size : ℕ
  pub round_up : ℕ → ℕ → ℕ
  pub rand_r : ℕ → ℕ × ℕ
  pub wfl_remove : List ℕ → Option ℕ × List ℕ
  pub wfl_insert : ℕ → List ℕ → List ℕ
  pub wfl_size : List ℕ → ℕ
  pub munmap : ℕ → ℕ → Bool

abbrev pub call : Call → Lithe → Lithe
call c s = record s { calls = c ∷ s.calls }

abbrev pub with_ctx : ℕ → (Context → Context) → Lithe → Lithe
with_ctx t f s = record s { ctx = update s.ctx t (f (s.ctx t)) }

-- `atomic_swap_ptr(&target->joiner, new)`: the old value, and the memory with the new one.
unfoldable pub swap_joiner : ℕ → ℕ → Lithe → Option ℕ × Lithe
swap_joiner target new s =
    ((s.ctx target).joiner, with_ctx target (λ c. record c { joiner = some new }) s)

-- `upthread_getattr_np`
unfoldable pub getattr_np : Context → Attr
getattr_np th = record {
  stackaddr = some th.bottom;
  stacksize = th.size;
  detachstate = if th.detached then DetachState.detached else joinable;
}

abbrev pub wants_detached : Option Attr → Bool
wants_detached none = false
wants_detached (some a) = elim a.detachstate [ joinable ↦ false | DetachState.detached ↦ true ]

-- The size that `upthread_create` asks for.
abbrev pub wanted_size : ℕ → Option Attr → ℕ
wanted_size pgsize none = stack_size pgsize
wanted_size pgsize (some a) = if a.stacksize == 0 then stack_size pgsize else a.stacksize

-- The context at the top of a fresh mapping, which is all zero.
abbrev pub context_at : ℕ → ℕ → ℕ → Context
context_at stackbot size offset = record {
  stack_offset = offset;
  bottom = stackbot;
  size = ptr_sub size offset;
  detached = false;
  joiner = none;
  start_routine = 0;
  arg = 0;
  retval = 0;
}

-- What `__ctx_free` unmaps: the base, and the size that went through an int.
abbrev pub unmapped : Context → ℕ × ℕ
unmapped c =
    let sum = (c.size + c.stack_offset) % 2 ^ 32 in
    (c.bottom, if ltb sum (2 ^ 31) then sum else sum + (2 ^ 64 - 2 ^ 32))

-- How `upthread_join` begins.
pub data JoinStart : Type 0 where
  rejected : JoinStart  -- the target is detached: return -1
  suspend : JoinStart  -- `lithe_context_block(__pth_join_cb, …)`
  finished : JoinStart  -- the target has exited

module _ (p : Platform) where
  -- `__ctx_alloc`, with what mmap returns when it is asked for a mapping of some size: the context, at
  -- its address, or that of a dead thread as it left it. `none` is `abort`.
  unfoldable pub ctx_alloc : (ℕ → Option ℕ) → ℕ → Lithe → Option (ℕ × Lithe)
  ctx_alloc mmap stacksize s =
      let (dead, zombies) = p.wfl_remove s.zombie_list in
      let (r, seed) = p.rand_r s.rseed in
      let offset = p.round_up p.ctx_size p.cl_size + r % p.max_vcores * p.cl_size in
      let size = p.round_up ((stacksize + offset) % 2 ^ 64) p.pgsize in
      elim dead [
        | some t ↦ some (t, record s { zombie_list = zombies })
        | none ↦ (do
          stackbot ← mmap size
          let t = ptr_sub (stackbot + size) offset
          let s₁ = record s { zombie_list = zombies; rseed = seed }
          some (t, with_ctx t (λ c. context_at stackbot size offset) s₁))
      ]

  -- `__ctx_free`: the first thousand dead contexts are kept.
  unfoldable pub ctx_free : ℕ → Lithe → Option Lithe
  ctx_free t s =
      if ltb (p.wfl_size s.zombie_list) 1000
      then some (record s { zombie_list = p.wfl_insert t s.zombie_list })
      else (do
        let (base, size) = unmapped (s.ctx t)
        assert p.debug (p.munmap base size)
        some (call (Call.munmap base size) s))

  -- `upthread_create`
  unfoldable pub upthread_create : (ℕ → Option ℕ) → Option Attr → ℕ → ℕ → Lithe → Option (ℕ × Lithe)
  unfolding ctx_alloc
  upthread_create mmap attr start_routine arg s = do
    (t, s₁) ← ctx_alloc mmap (wanted_size p.pgsize attr) s
    let s₂ =
        with_ctx t
          (λ c. record c {
            detached = wants_detached attr;
            joiner = none;
            start_routine = start_routine;
            arg = arg;
          })
          s₁
    some (t, call (context_init t) s₂)

  -- `upthread_join` up to the block.
  unfoldable pub join_start : ℕ → Lithe → Option (JoinStart × Lithe)
  join_start target s =
      if (s.ctx target).detached
      then some (rejected, call (join_detached target) s)
      else if not (is_some (s.ctx target).joiner)
      then some (suspend, s)
      else (do assert p.debug (same (s.ctx target).joiner (some target)); some (finished, s))

  -- The `if` of `__pth_join_cb`.
  unfoldable pub join_wake : Option ℕ → ℕ → ℕ → Lithe → Option Lithe
  join_wake none t target s = some s
  join_wake (some temp_pth) t target s = do
    assert p.debug (temp_pth == target)
    some (call (context_unblock t) s)

  -- `__pth_join_cb`
  unfoldable pub join_cb : ℕ → ℕ → Lithe → Option Lithe
  unfolding swap_joiner join_wake
  join_cb t target s = let (temp_pth, s₁) = swap_joiner target t s in join_wake temp_pth t target s₁

  -- `upthread_join` after the block: the value that the target left, and its context is freed.
  unfoldable pub join_finish : ℕ → Lithe → Option (ℕ × Lithe)
  unfolding ctx_free
  join_finish target s = do s₁ ← ctx_free target s; some ((s.ctx target).retval, s₁)

  -- The last `if` of `context_exit`.
  unfoldable pub exit_wake : Option ℕ → Lithe → Lithe
  exit_wake none s = s
  exit_wake (some temp_pth) s = call (context_unblock temp_pth) s

  -- `context_exit`, which lithe calls for a context that exits.
  unfoldable pub context_exit : ℕ → Lithe → Option Lithe
  unfolding swap_joiner exit_wake ctx_free
  context_exit t s =
      let s₁ = call (context_cleanup t) (call (hart_request (negsuc 0)) s) in
      let (temp_pth, s₂) = swap_joiner t t s₁ in
      if (s₁.ctx t).detached then ctx_free t s₁ else some (exit_wake temp_pth s₂)

-- `upthread_exit` of the thread `t`
unfoldable pub upthread_exit : ℕ → ℕ → Lithe → Lithe
upthread_exit t ret s =
    call context_exits (call destroy_dtls (with_ctx t (λ c. record c { retval = ret }) s))

-- `upthread_yield`, `upthread_detach`
unfoldable pub upthread_yield : Lithe → Lithe
upthread_yield s = call context_yield s

unfoldable pub upthread_detach : ℕ → Lithe → Lithe
upthread_detach t s = with_ctx t (λ c. record c { detached = true }) s

-- `upthread_lithe_sched_alloc`, with the address of `main_context` in the memory that the allocator
-- gave; `none` is a null pointer, which the code follows.
unfoldable pub sched_alloc : Option ℕ → Lithe → Option (ℕ × Lithe)
sched_alloc none s = none
sched_alloc (some main) s = some (main, call (sched_init main) s)

-- `upthread_lib_init`, the first time: the context of the main thread.
unfoldable pub upthread_lib_init : Option ℕ → Lithe → Option (ℕ × Lithe)
unfolding sched_alloc
upthread_lib_init memory s = do
  (main, s₁) ← sched_alloc memory (call lib_init s)
  let s₂ = with_ctx main (λ c. record c { detached = true; joiner = none }) s₁
  some (main, call sched_enter s₂)
