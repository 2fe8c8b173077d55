-- ===== src/Pvcq/Threads.antt =====
-- src/pvcq/upthread.c, lines 74-113 and 248-279, 319-353: control blocks and stacks, and what the
-- scheduler does when a vcore comes in or a thread stops.
use upthread.Base.{
  ℕ, ◌+◌, ◌-◌, ◌*◌, ◌%◌, ◌^◌, Bool, true, false, ◌&&◌, not, Option, none, some, List, [], ◌∷◌, ltb,
  if◌then◌else◌, assert, ◌>>=◌, ◌>>◌, ℤ, decr, nonzero,
}
use upthread.Tcb.{
  Tcb, ThreadState, runnable, running, blk_yielding, blk_sysc, blk_mutex, blk_paused, ptr_sub,
  zeroed,
}
use upthread.Pvcq.State.{
  Pvcq, Platform, vcore_yield, run_uthread, just_blocked, with_vc, with_tcb, to_state, call, Call,
}
use upthread.Pvcq.Queues.{thread_dequeue}

-- What the allocation of a block uses of parlib and of the system: ROUNDUP, the wait-free list of
-- the dead threads, and whether `munmap` succeeds.
pub record Memory : Type 0 where
  pub round_up : ℕ → ℕ → ℕ
  pub wfl_remove : List ℕ → Option ℕ × List ℕ
  pub wfl_insert : ℕ → List ℕ → List ℕ
  pub wfl_size : List ℕ → ℕ
  pub munmap : ℕ → ℕ → Bool

module _ (p : Platform) (mem : Memory) where
  -- The sizes that `__upthread_alloc` computes for a new block: the offset of the block from the end
  -- of the mapping, the size of the mapping, and the next seed.
  unfoldable pub mapping : ℕ → ℕ → ℕ × ℕ × ℕ
  mapping stacksize seed =
      let (r, seed') = p.rand_r seed in
      let offset = mem.round_up p.tcb_size p.cl_size + r % p.max_vcores * p.cl_size in
      (offset, mem.round_up ((stacksize + offset) % 2 ^ 64) p.pgsize, seed')

  -- The block at the top of a fresh mapping, which is all zero.
  abbrev pub block_at : ℕ → ℕ → ℕ → Tcb
  block_at stackbot size offset = record zeroed {
    stack_offset = offset;
    stacktop = ptr_sub (stackbot + size) offset;
    stacksize = (size - offset) % 2 ^ 32;
  }

  -- `__upthread_alloc`, with what mmap returns when it is asked for a mapping of some size: the new
  -- block, at its address, or a block of a dead thread as that thread left it. `none` is `abort`.
  unfoldable pub alloc : (ℕ → Option ℕ) → ℕ → Pvcq → Option (ℕ × Pvcq)
  unfolding mapping
  alloc mmap stacksize s =
      let (dead, zombies) = mem.wfl_remove s.zombie_list in
      let s₁ = record s { zombie_list = zombies } in
      elim dead [
        | some t ↦ some (t, s₁)
        | none ↦
            let (offset, size, seed) = mapping stacksize (s.vc_mgmt 0).rseed in
            let s₂ = with_vc 0 (λ vc. record vc { rseed = seed }) s₁ in
            mmap size >>= λ stackbot.
            let t = ptr_sub (stackbot + size) offset in
            some (t, with_tcb t (λ b. block_at stackbot size offset) s₂)
      ]

  -- What `__upthread_free` unmaps: the base, and the size that went through an int.
  abbrev pub unmapped : Tcb → ℕ × ℕ
  unmapped b =
      let sum = (b.stacksize + b.stack_offset) % 2 ^ 32 in
      (ptr_sub b.stacktop b.stacksize, if ltb sum (2 ^ 31) then sum else sum + (2 ^ 64 - 2 ^ 32))

  -- `__upthread_free`: the first thousand dead blocks are kept.
  unfoldable pub free : ℕ → Pvcq → Option Pvcq
  free t s =
      if ltb (mem.wfl_size s.zombie_list) 1000
      then some (record s { zombie_list = mem.wfl_insert t s.zombie_list })
      else (do
        let (base, size) = unmapped (s.tcb t)
        let s₁ = call (Call.munmap base size) s
        assert p.debug (mem.munmap base size)
        some s₁)

-- The rest of a round that found no thread: `can_adjust_vcores && !(spin_count--)`.
unfoldable pub spin : ℤ → Pvcq → ℤ × Pvcq
spin spin_count s =
    if s.can_adjust_vcores
    then (decr spin_count, if nonzero spin_count then s else call vcore_yield s)
    else (spin_count, s)

abbrev pub is_runnable : ThreadState → Bool
is_runnable runnable = true
is_runnable _ = false

module _ (p : Platform) where
  abbrev pub found_or : Option ℕ × Pvcq → (Pvcq → Option ℕ × Pvcq) → Option ℕ × Pvcq
  found_or (none, s) later = later s
  found_or (some t, s) later = (some t, s)

  -- The loop of `pth_sched_entry` on the vcore `self`. The list holds what `handle_events` and the
  -- other vcores do after each round that finds no thread; where it ends the vcore is still looking.
  unfoldable pub sched_loop : List (Pvcq → Pvcq) → ℕ → ℤ → Pvcq → Option ℕ × Pvcq
  unfolding spin
  sched_loop [] self spin_count s = thread_dequeue p self s
  sched_loop (events ∷ rounds) self spin_count s = found_or (thread_dequeue p self s) (λ s₁.
      let (spin_count', s₂) = spin spin_count s₁ in sched_loop rounds self spin_count' (events s₂))

  -- What follows the loop.
  unfoldable pub run_found : Option ℕ × Pvcq → Option (Option ℕ × Pvcq)
  run_found (none, s) = some (none, s)
  run_found (some t, s) = do
    assert p.debug (is_runnable (s.tcb t).state)
    some (some t, call (run_uthread t) (to_state running t s))

  -- `pth_sched_entry`, with `current_uthread` of the vcore: the thread that runs next, if any.
  unfoldable pub pth_sched_entry :
      List (Pvcq → Pvcq) → Option ℕ → ℕ → Pvcq → Option (Option ℕ × Pvcq)
  unfolding sched_loop run_found
  pth_sched_entry rounds (some t) self s = some (some t, call (run_uthread t) s)
  pth_sched_entry rounds none self s = run_found (sched_loop rounds self s.max_spin_count s)

  -- `pth_thread_paused`; `__upthread_generic_yield` is empty here.
  unfoldable pub pth_thread_paused : ℕ → Pvcq → Pvcq
  pth_thread_paused t s = p.uthread_runnable t (to_state blk_paused t s)

  -- `__pth_yield_cb`
  unfoldable pub yield_cb : ℕ → Pvcq → Pvcq
  yield_cb t s = p.uthread_runnable t (to_state blk_yielding t s)

-- `pth_thread_has_blocked`; `justice` is `flags == UTH_EXT_BLK_JUSTICE`.
unfoldable pub pth_thread_has_blocked : ℕ → Bool → Pvcq → Pvcq
pth_thread_has_blocked t justice s =
    let s₁ = to_state blk_mutex t s in if justice then call just_blocked s₁ else s₁

-- `pth_blockon_syscall`, which notes the thread in the call, `sysc->u_data`.
unfoldable pub pth_blockon_syscall : ℕ → Pvcq → ℕ × Pvcq
pth_blockon_syscall t s = (t, to_state blk_sysc t s)

-- `upthread_yield` up to the yield: whether it yields.
unfoldable pub yield_start : ℕ → Pvcq → Bool
yield_start self s = not (s.ss_yield && not (nonzero (s.vc_mgmt self).tqsize))

-- `upthread_detach`
unfoldable pub upthread_detach : ℕ → Pvcq → Pvcq
upthread_detach t s = with_tcb t (λ b. record b { detached = true }) s
