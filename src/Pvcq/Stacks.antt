-- ===== src/Pvcq/Stacks.antt =====
-- src/pvcq/upthread.c, lines 72-103: what `__upthread_alloc` maps and `__upthread_free` unmaps.
use upthread.Base.{
  ℕ, ◌+◌, ◌-◌, ◌%◌, ◌^◌, ◌≤◌, ◌<◌, ◌≡◌, refl, ap, true, Option, none, some, List, arith, ltb,
  ==_refl, ◌>>=◌,
}
use upthread.Tcb.{ptr_sub}
use upthread.Pvcq.State.{Pvcq, Platform}
use upthread.Pvcq.Threads.{Memory, mapping, alloc, unmapped, block_at}

module _ (p : Platform) (mem : Memory) where
  -- A block says what its mapping is.
  unmapped-block_at :
      (stackbot size offset : ℕ)
      → offset ≤ size
      → size < 2 ^ 31
      → stackbot + size < 2 ^ 64
      → unmapped p mem (block_at p mem stackbot size offset) ≡ (stackbot, size)
  unmapped-block_at stackbot size offset fits small below =
      let e₁ : (size - offset) % 2 ^ 32 ≡ size - offset = omega arith in
      let e₂ : ptr_sub (stackbot + size) offset ≡ stackbot + size - offset = omega arith in
      let e₃ : ptr_sub (stackbot + size - offset) (size - offset) ≡ stackbot = omega arith in
      let e₄ : (size - offset + offset) % 2 ^ 32 ≡ size = omega arith in
      let e₅ : ltb size (2 ^ 31) ≡ true = ground arith in rw (e₁, e₂, e₃, e₄, e₅) refl

  -- If no dead thread is left and mmap gives a mapping that ends below 2^64 and is smaller than 2^31
  -- and no smaller than the block's offset, then what the new block says is to be unmapped is the
  -- mapping, whole.
  pub unmapped-alloc :
      (mmap : ℕ → Option ℕ) (stacksize stackbot : ℕ) (s : Pvcq) (zombies : List ℕ)
      → mem.wfl_remove s.zombie_list ≡ (none, zombies)
      → mmap (mapping p mem stacksize (s.vc_mgmt 0).rseed).1 ≡ some stackbot
      → (mapping p mem stacksize (s.vc_mgmt 0).rseed).0
        ≤ (mapping p mem stacksize (s.vc_mgmt 0).rseed).1
      → (mapping p mem stacksize (s.vc_mgmt 0).rseed).1 < 2 ^ 31
      → stackbot + (mapping p mem stacksize (s.vc_mgmt 0).rseed).1 < 2 ^ 64
      → (alloc p mem mmap stacksize s >>= λ r. some (unmapped p mem (r.1.tcb r.0)))
        ≡ some (stackbot, (mapping p mem stacksize (s.vc_mgmt 0).rseed).1)
  unfolding alloc mapping
  unmapped-alloc mmap stacksize stackbot s zombies dead mapped fits small below =
      let m = mapping p mem stacksize (s.vc_mgmt 0).rseed in
      rw (dead, alloc)
        (rw (mapped, ==_refl (ptr_sub (stackbot + m.1) m.0))
          (ap some (unmapped-block_at stackbot m.1 m.0 fits small below)))
