-- ===== src/Pvcq/Debts.antt =====
-- src/pvcq/upthread.c: who frees which block in the joins, the exits and the creations of Pvcq/System.
use upthread.Base.{
  ℕ, ◌+◌, ◌≡◌, refl, sym, ◌∙◌, subst, ◌≢◌, ◌⊎◌, inl, inr, true, Option, none, some, List, arith,
  ◌==◌, bit, assert, ==_refl, Bool-cases, bind-eq-some, some_inj, count,
}
use upthread.Base.Sums.{update}
use upthread.Tcb.{ThreadState, running, exiting, blk_joining}
use upthread.Pvcq.State.{Pvcq, Platform, to_state, call, uthread_cleanup}
use upthread.Pvcq.Queues.{odd, placement, pth_thread_runnable}
use upthread.Pvcq.Threads.{Memory, free}
use upthread.Pvcq.Lifecycle.{join_wake, join_cb, join_finish, exit_wake, exit_cb, exit_start}
use upthread.Pvcq.System.{IsUnowed}
use upthread.Pvcq.Entering.{IsBounded, Enters}
use upthread.Pvcq.Places.{Places}
use upthread.Pvcq.Slots.{Slots, exiting-or_not}
use upthread.Pvcq.Owed.{Owed, live-IsUnowed, calm-Owed, wake-Owed}
use upthread.Pvcq.Moves.{Inv, same-Inv, runnable-Enters}
use upthread.Pvcq.Freeing.{wait-Owed, drop-Owed, bury-Owed}
use upthread.Pvcq.Ending.{wait-Inv, exited-Inv, free-done}
use upthread.Pvcq.Swapping.{waiting, cleaned, join_cb-swaps, exit_cb-swaps}

-- A slot that holds its own thread is that of one that has exited.
pub over_of :
    (target : ℕ) (b : Pvcq)
    → Slots b.tcb
    → (b.tcb target).joiner ≡ some target
    → (b.tcb target).state ≡ exiting
over_of target b h full = elim (exiting-or_not (b.tcb target).state) [
  | inl gone ↦ gone
  | inr live ↦ absurd ((h.held target target live full).1 refl)
]

blocked-or_not : (st : ThreadState) → (st ≡ blk_joining) ⊎ (st ≢ blk_joining)
blocked-or_not st = ground arith

module _ (p : Platform) (mem : Memory) (rounds : ℕ → Pvcq → List (ℕ → ℕ))
    (bounded : (t : ℕ) (s : Pvcq) → IsBounded (rounds t s) s)
    (dispatches : (t : ℕ) (s : Pvcq)
      → p.uthread_runnable t s ≡ pth_thread_runnable (rounds t s) t s) where
  pub dispatched-Enters :
      (t : ℕ) (b : Pvcq) (c : ℕ → Option ℕ)
      → Places p.max_vcores b c
      → placement (b.tcb t).state ≢ odd
      → Enters p.max_vcores t b (p.uthread_runnable t b)
  dispatched-Enters t b c h known =
      subst (λ x. Enters p.max_vcores t b x) (sym (dispatches t b))
        (runnable-Enters p.max_vcores (rounds t b) t b c h known (λ e. bounded t b))

  pub join-Owed :
      (v t target : ℕ) (b b' : Pvcq) (c joining : ℕ → Option ℕ)
      → Inv p.max_vcores b c
      → Owed b joining
      → c v ≡ some t
      → joining t ≡ none
      → t ≢ target
      → IsUnowed target b joining
      → ((b.tcb target).joiner ≡ none) ⊎ ((b.tcb target).joiner ≡ some target)
      → join_cb p mem t target b ≡ some b'
      → Owed b' (update joining t (some target))
  unfolding join_wake
  join-Owed v t target b b' c joining h o at idle ne free (inl slot) e =
      subst (λ x. Owed x (update joining t (some target)))
        (some_inj (sym (join_cb-swaps p mem t target none b slot) ∙ e))
        (wait-Owed t target b joining o h.slots (h.places.runs v t at) idle)
  join-Owed v t target b b' c joining h o at idle ne (unlisted, unowed) (inr slot) e =
      let b₁ = waiting t target b in
      let ran = h.places.runs v t at in
      let e₁ = sym (join_cb-swaps p mem t target (some target) b slot) ∙ e in
      let (_, _, e₂) = bind-eq-some (assert p.debug _) _ e₁ in
      let st : (b₁.tcb t).state ≡ blk_joining = ground (arith, ==_refl t) in
      let over = over_of target b h.slots slot in
      subst (λ x. Owed x (update joining t (some target))) (some_inj e₂)
        (wake-Owed p.max_vcores t target b₁ _ (update joining t (some target))
          (wait-Owed t target b joining o h.slots ran idle) st (ground (arith, ==_refl t))
          (ground arith)
          (
            unlisted,
            λ u k. elim (Bool-cases (u == t)) [
              | inl q ↦ ground (arith, ==_refl t)
              | inr q ↦
                  let k' : joining u ≡ some target = ground arith in ground (arith, unowed u k')
            ],
          )
          (dispatched-Enters t b₁ (update c v none)
            (wait-Inv p.max_vcores v t target b c h at ne).places (λ q. ground arith)))

  -- The thread that waits for one that exits.
  woken-Owed :
      (v t : ℕ) (o : Option ℕ) (b : Pvcq) (c joining : ℕ → Option ℕ)
      → Inv p.max_vcores b c
      → Owed b joining
      → c v ≡ some t
      → (b.tcb t).joiner ≡ o
      → Owed (exit_wake p mem o (cleaned t b)) joining
  unfolding exit_wake
  woken-Owed v t none b c joining h o at slot =
      let ran = h.places.runs v t at in
      calm-Owed b (cleaned t b) joining o refl (λ u q. ground arith) (λ u q. ground arith)
        (λ u j on e. (λ q. on (ground arith), ground arith))
  woken-Owed v t (some j) b c joining h o at slot =
      let ran = h.places.runs v t at in
      let live : (b.tcb t).state ≢ exiting = λ e. ground arith in
      let (st, ne) = h.slots.held t j live slot in
      let (unlisted, unowed) = live-IsUnowed t b joining o live in
      let b₁ = cleaned t b in
      let h' =
        exited-Inv p.max_vcores v t b b₁ c h at refl refl refl (ground (arith, ==_refl t))
          (λ u. ground arith) (λ u ne. ground arith) (λ u ne. ground arith) in
      let o' : Owed b₁ joining =
        calm-Owed b b₁ joining o refl (λ u q. ground arith) (λ u q. ground arith)
          (λ u j on e. (λ q. on (ground arith), ground arith)) in
      wake-Owed p.max_vcores j t b₁ _ joining o' (ground arith) (o.slot t j live slot)
        (ground (arith, ==_refl t)) (unlisted, λ u k. let q = unowed u k in ground arith)
        (dispatched-Enters j b₁ (update c v none) h'.places (λ q. ground arith))

  module _
      (inserts : (t u : ℕ) (l : List ℕ)
        → count u (mem.wfl_insert t l) ≡ count u l + bit (u == t)) where
    pub free-Owed :
        (t : ℕ) (s s' : Pvcq) (joining : ℕ → Option ℕ)
        → Owed s joining
        → (s.tcb t).state ≡ exiting
        → IsUnowed t s joining
        → free p mem t s ≡ some s'
        → Owed s' joining
    free-Owed t s s' joining o over unowed e =
        free-done (λ x. Owed x joining) p mem t s s' e
          (bury-Owed t (mem.wfl_insert t s.zombie_list) s joining o over unowed
            (λ u. inserts t u s.zombie_list))
          (calm-Owed s _ joining o refl (λ u q. q) (λ u q. q) (λ u j on e. (on, e)))

    pub exit-Owed :
        (v t ret : ℕ) (b b' : Pvcq) (c joining : ℕ → Option ℕ)
        → Inv p.max_vcores b c
        → Owed b joining
        → c v ≡ some t
        → exit_cb p mem t (exit_start p mem t ret b) ≡ some b'
        → Owed b' joining
    unfolding exit_start exit_cb
    exit-Owed v t ret b b' c joining h o at e =
        let s = exit_start p mem t ret b in
        let s₁ = call (uthread_cleanup t) (to_state exiting t s) in
        let ran = h.places.runs v t at in
        let h' : Inv p.max_vcores s c =
          same-Inv p.max_vcores b s c h (λ v. refl) (λ v. refl) (λ u. ground arith)
            (λ u. ground arith) (λ u. ground arith) refl refl in
        let o' : Owed s joining =
          calm-Owed b s joining o refl (λ u q. ground arith) (λ u q. ground arith)
            (λ u j on e. (λ q. on (ground arith), ground arith)) in
        let ran' : (s.tcb t).state ≡ running = h'.places.runs v t at in
        let (unlisted, unowed) = live-IsUnowed t s joining o' (λ q. ground arith) in
        elim (Bool-cases (s.tcb t).detached) [
          | inl gone ↦
              let gone' : (s₁.tcb t).detached ≡ true = ground (arith, ==_refl t) in
              let a : exit_cb p mem t s ≡ free p mem t s₁ = rw (gone', exit_cb) refl in
              free-Owed t s₁ b' joining
                (calm-Owed s s₁ joining o' refl (λ u q. ground arith) (λ u q. ground arith)
                  (λ u j on e. (λ q. on (ground arith), ground arith)))
                (ground (arith, ==_refl t)) (unlisted, λ u k. let q = unowed u k in ground arith)
                (sym a ∙ e)
          | inr stays ↦
              subst (λ x. Owed x joining)
                (some_inj (sym (exit_cb-swaps p mem t (s.tcb t).joiner s stays refl) ∙ e))
                (woken-Owed v t (s.tcb t).joiner s c joining h' o' at refl)
        ]

    -- A thread frees the block of the one that it has joined.
    pub joined-Owed :
        (t target ret : ℕ) (s s' : Pvcq) (joining : ℕ → Option ℕ)
        → Owed s joining
        → Slots s.tcb
        → (s.tcb t).state ≡ running
        → joining t ≡ some target
        → join_finish p mem target s ≡ some (ret, s')
        → Owed s' (update joining t none)
    unfolding join_finish
    joined-Owed t target ret s s' joining o h ran for e =
        let (s₁, done, e₁) = bind-eq-some (free p mem target s) _ e in
        elim (o.pending t target for) [
          | inl blocked ↦ absurd (ground arith)
          | inr (over, unlisted) ↦
              subst (λ (x : ℕ × Pvcq). Owed x.1 (update joining t none)) (some_inj e₁)
                (free-Owed target s s₁ (update joining t none) (drop-Owed t s joining o h ran) over
                  (
                    unlisted,
                    λ u k. elim (Bool-cases (u == t)) [
                      | inl q ↦ absurd (ground arith)
                      | inr q ↦ others u (ground arith) (ground arith)
                    ],
                  )
                  done)
        ]
      where
        others : (u : ℕ) → u ≢ t → joining u ≡ some target → (s.tcb u).state ≡ blk_joining
        others u ne k = elim (o.pending u target k) [
          | inl blocked ↦ blocked
          | inr both ↦ elim (blocked-or_not (s.tcb u).state) [
            | inl blocked ↦ blocked
            | inr free ↦ absurd (ne (o.alone u t target k for free (λ q. ground arith)))
          ]
        ]
