-- ===== src/Pvcq/Swapping.antt =====
-- src/pvcq/upthread.c, lines 505-582: the callbacks of a join and of an exit, by what the swap of the
-- slot gives.
use upthread.Base.{ℕ, ◌≡◌, sym, ap, subst, false, Option, some, arith, if◌then◌else◌, ==_refl}
use upthread.Tcb.{blk_joining, exiting}
use upthread.Pvcq.State.{Pvcq, Platform, call, uthread_cleanup, to_state, with_tcb}
use upthread.Pvcq.Threads.{Memory, free}
use upthread.Pvcq.Lifecycle.{swap_joiner, join_wake, join_cb, exit_wake, exit_cb}

-- The memory after a swap of the slot.
abbrev slotted : ℕ → ℕ → Pvcq → Pvcq
slotted target new s = with_tcb target (λ b. record b { joiner = some new }) s

abbrev pub cleaned : ℕ → Pvcq → Pvcq
cleaned t s = slotted t t (call (uthread_cleanup t) (to_state exiting t s))

abbrev pub waiting : ℕ → ℕ → Pvcq → Pvcq
waiting t target s = slotted target t (to_state blk_joining t s)

module _ (p : Platform) (mem : Memory) where
  pub exit_cb-swaps :
      (t : ℕ) (o : Option ℕ) (s : Pvcq)
      → (s.tcb t).detached ≡ false
      → (s.tcb t).joiner ≡ o
      → exit_cb p mem t s ≡ some (exit_wake p mem o (cleaned t s))
  unfolding exit_cb swap_joiner
  exit_cb-swaps t o s joinable slot =
      let s₁ = call (uthread_cleanup t) (to_state exiting t s) in
      let e₁ : (s₁.tcb t).detached ≡ false = ground (arith, ==_refl t) in
      let e₂ : (s₁.tcb t).joiner ≡ o = ground (arith, ==_refl t) in
      subst
        (λ b.
          (if b then free p mem t s₁ else some (exit_wake p mem (s₁.tcb t).joiner (cleaned t s)))
          ≡ some (exit_wake p mem o (cleaned t s)))
        (sym e₁) (ap (λ x. some (exit_wake p mem x (cleaned t s))) e₂)

  pub join_cb-swaps :
      (t target : ℕ) (o : Option ℕ) (s : Pvcq)
      → (s.tcb target).joiner ≡ o
      → join_cb p mem t target s ≡ join_wake p mem o t target (waiting t target s)
  unfolding join_cb swap_joiner
  join_cb-swaps t target o s slot =
      let e : ((to_state blk_joining t s).tcb target).joiner ≡ o = ground arith in
      ap (λ x. join_wake p mem x t target (waiting t target s)) e
