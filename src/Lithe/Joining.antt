-- ===== src/Lithe/Joining.antt =====
-- src/lithe/upthread.c, lines 166-241: a join and the exit of its target, in either order.
use upthread.Base.{
  ℕ, ◌≡◌, refl, inl, inr, true, false, none, some, ◌∷◌, arith, ltb, ◌==◌, assert-true, ==_refl,
  Bool-cases, negsuc,
}
use upthread.Lithe.Contexts.{
  Call, hart_request, context_cleanup, context_unblock, context_exits, destroy_dtls, Lithe,
  Platform, call, with_ctx, swap_joiner, unmapped, ctx_free, join_wake, join_cb, join_finish,
  exit_wake, context_exit, upthread_exit,
}

module _ (p : Platform) (unmaps : (base size : ℕ) → p.munmap base size ≡ true) where
  ctx_free-done : (t : ℕ) (s : Lithe) → (s' : Lithe) × (ctx_free p t s ≡ some s')
  unfolding ctx_free
  ctx_free-done t s = elim (Bool-cases (ltb (p.wfl_size s.zombie_list) 1000)) [
    | inl few ↦ (record s { zombie_list = p.wfl_insert t s.zombie_list }, rw few refl)
    | inr many ↦
        let (base, size) = unmapped (s.ctx t) in
        (
          call (Call.munmap base size) s,
          rw (many, assert-true p.debug (p.munmap base size) (unmaps base size)) refl,
        )
  ]

  -- The value of a target that has exited and whose slot was swapped twice.
  join_finish-value :
      (target ret : ℕ) (s : Lithe)
      → (s.ctx target).retval ≡ ret
      → (s' : Lithe) × (join_finish p target s ≡ some (ret, s'))
  unfolding join_finish
  join_finish-value target ret s e =
      let (s', freed) = ctx_free-done target s in (s', rw freed (rw e refl))

  -- The memory after a swap of the slot.
  abbrev slotted : ℕ → ℕ → Lithe → Lithe
  slotted target new s = with_ctx target (λ c. record c { joiner = some new }) s

  abbrev cleaned : ℕ → Lithe → Lithe
  cleaned t s = call (context_cleanup t) (call (hart_request (negsuc 0)) s)

  exit-first :
      (t : ℕ) (s : Lithe)
      → (s.ctx t).detached ≡ false
      → (s.ctx t).joiner ≡ none
      → context_exit p t s ≡ some (slotted t t (cleaned t s))
  unfolding context_exit swap_joiner exit_wake
  exit-first t s joinable slot = rw (joinable, slot) refl

  exit-second :
      (t j : ℕ) (s : Lithe)
      → (s.ctx t).detached ≡ false
      → (s.ctx t).joiner ≡ some j
      → context_exit p t s ≡ some (call (context_unblock j) (slotted t t (cleaned t s)))
  unfolding context_exit swap_joiner exit_wake
  exit-second t j s joinable slot = rw (joinable, slot) refl

  join-first :
      (t target : ℕ) (s : Lithe)
      → (s.ctx target).joiner ≡ none
      → join_cb p t target s ≡ some (slotted target t s)
  unfolding join_cb swap_joiner join_wake
  join-first t target s slot = rw slot refl

  join-second :
      (t target : ℕ) (s : Lithe)
      → (s.ctx target).joiner ≡ some target
      → join_cb p t target s ≡ some (call (context_unblock t) (slotted target t s))
  unfolding join_cb swap_joiner join_wake
  join-second t target s slot =
      rw (slot, assert-true p.debug (target == target) (==_refl target)) refl

  -- That a join and an exit have met in `s'`: the joiner is unblocked once, when the target is
  -- cleaned up, and the join then gives the value that the target exited with.
  pub record Meet (t target ret : ℕ) (s s' : Lithe) : Type 0 where
    pub calls :
        s'.calls
        ≡ context_unblock t
          ∷ context_cleanup target
          ∷ hart_request (negsuc 0)
          ∷ context_exits
          ∷ destroy_dtls
          ∷ s.calls
    pub value : (s₁ : Lithe) × (join_finish p target s' ≡ some (ret, s₁))

  -- Where munmap succeeds and the target is joinable and not joined yet: if it exits and then the
  -- callback of the join runs, and if the callback runs first, every assertion holds, the joiner is
  -- unblocked once, after the target was cleaned up, and the join gives the value of the exit.
  pub join_meets_exit :
      (t target ret : ℕ) (s : Lithe)
      → (s.ctx target).detached ≡ false
      → (s.ctx target).joiner ≡ none
      → ((s₁ s₂ : Lithe) × (context_exit p target (upthread_exit target ret s) ≡ some s₁)
          × (join_cb p t target s₁ ≡ some s₂)
          × Meet t target ret s s₂)
        × ((s₁ s₂ : Lithe) × (join_cb p t target s ≡ some s₁)
            × (context_exit p target (upthread_exit target ret s₁) ≡ some s₂)
            × Meet t target ret s s₂)
  unfolding upthread_exit
  join_meets_exit t target ret s joinable slot =
      let gone = slotted target target (cleaned target (upthread_exit target ret s)) in
      let joined = slotted target t s in
      let a = call (context_unblock t) (slotted target t gone) in
      let b =
        call (context_unblock t)
          (slotted target target (cleaned target (upthread_exit target ret joined))) in
      (
        (
          gone,
          a,
          exit-first target (upthread_exit target ret s) (ground arith) (ground arith),
          join-second t target gone (ground (arith, ==_refl target)),
          record {
            calls = refl;
            value = join_finish-value target ret a (ground (arith, ==_refl target));
          },
        ),
        (
          joined,
          b,
          join-first t target s slot,
          exit-second target t (upthread_exit target ret joined) (ground arith)
              (ground (arith, ==_refl target)),
          record {
            calls = refl;
            value = join_finish-value target ret b (ground (arith, ==_refl target));
          },
        ),
      )
