-- ===== src/Pvcq/Steps.antt =====
-- src/pvcq/upthread.c: the joins, the exits and the creations of Pvcq/System, whole.
use upthread.Base.{
  ℕ, ◌≡◌, refl, sym, ◌∙◌, subst, ◌≢◌, ◌⊎◌, inl, inr, true, Option, none, some, List, arith, ◌==◌,
  assert, ==_refl, Bool-cases, bind-eq-some, some_inj,
}
use upthread.Base.Sums.{update}
use upthread.Tcb.{exiting, blk_joining, Attr}
use upthread.Pvcq.State.{Pvcq, Platform, to_state, call, uthread_cleanup, get_next_pid}
use upthread.Pvcq.Queues.{odd, placement, pth_thread_runnable}
use upthread.Pvcq.Threads.{Memory, free, alloc}
use upthread.Pvcq.Lifecycle.{join_wake, join_cb, exit_wake, exit_cb, exit_start, upthread_create}
use upthread.Pvcq.System.{is_over}
use upthread.Pvcq.Entering.{IsBounded}
use upthread.Pvcq.Slots.{IsLoose}
use upthread.Pvcq.Moves.{Inv, same-Inv, queue-Inv}
use upthread.Pvcq.Ending.{wait-Inv, waiting-IsLoose, exited-Inv, free-Inv}
use upthread.Pvcq.Allocated.{fresh-Kept, alloc-Allocs, fresh-Inv}
use upthread.Pvcq.Swapping.{waiting, cleaned, join_cb-swaps, exit_cb-swaps}

module _ (p : Platform) (mem : Memory) (rounds : ℕ → Pvcq → List (ℕ → ℕ))
    (bounded : (t : ℕ) (s : Pvcq) → IsBounded (rounds t s) s)
    (dispatches : (t : ℕ) (s : Pvcq)
      → p.uthread_runnable t s ≡ pth_thread_runnable (rounds t s) t s) where
  -- parlib makes a thread runnable.
  pub runnable-Inv :
      (t : ℕ) (b : Pvcq) (c : ℕ → Option ℕ)
      → Inv p.max_vcores b c
      → IsLoose b.tcb t
      → placement (b.tcb t).state ≢ odd
      → Inv p.max_vcores (p.uthread_runnable t b) c
  runnable-Inv t b c h free known =
      subst (λ x. Inv p.max_vcores x c) (sym (dispatches t b))
        (queue-Inv p.max_vcores (rounds t b) t b c h free known (λ e. bounded t b))

  pub join-Inv :
      (v t target : ℕ) (b b' : Pvcq) (c : ℕ → Option ℕ)
      → Inv p.max_vcores b c
      → c v ≡ some t
      → t ≢ target
      → ((b.tcb target).joiner ≡ none) ⊎ ((b.tcb target).joiner ≡ some target)
      → join_cb p mem t target b ≡ some b'
      → Inv p.max_vcores b' (update c v none)
  unfolding join_wake
  join-Inv v t target b b' c h at ne (inl slot) e =
      subst (λ x. Inv p.max_vcores x (update c v none))
        (some_inj (sym (join_cb-swaps p mem t target none b slot) ∙ e))
        (wait-Inv p.max_vcores v t target b c h at ne)
  join-Inv v t target b b' c h at ne (inr slot) e =
      let b₁ = waiting t target b in
      let e₁ = sym (join_cb-swaps p mem t target (some target) b slot) ∙ e in
      let (_, _, e₂) = bind-eq-some (assert p.debug _) _ e₁ in
      let st : (b₁.tcb t).state ≡ blk_joining = ground (arith, ==_refl t) in
      subst (λ x. Inv p.max_vcores x (update c v none)) (some_inj e₂)
        (runnable-Inv t b₁ (update c v none) (wait-Inv p.max_vcores v t target b c h at ne)
          (waiting-IsLoose t target b h.slots (h.places.runs v t at) ne slot) (λ q. ground arith))

  -- The thread that waits for one that exits.
  woken-Inv :
      (v t : ℕ) (o : Option ℕ) (b : Pvcq) (c : ℕ → Option ℕ)
      → Inv p.max_vcores b c
      → c v ≡ some t
      → (b.tcb t).joiner ≡ o
      → Inv p.max_vcores (exit_wake p mem o (cleaned t b)) (update c v none)
  unfolding exit_wake
  woken-Inv v t none b c h at slot =
      exited-Inv p.max_vcores v t b (cleaned t b) c h at refl refl refl (ground (arith, ==_refl t))
        (λ u. ground arith) (λ u ne. ground arith) (λ u ne. ground arith)
  woken-Inv v t (some j) b c h at slot =
      let h' =
        exited-Inv p.max_vcores v t b (cleaned t b) c h at refl refl refl
          (ground (arith, ==_refl t)) (λ u. ground arith) (λ u ne. ground arith)
          (λ u ne. ground arith) in
      let live : (b.tcb t).state ≢ exiting = λ e. ground (arith, h.places.runs v t at) in
      let (st, ne) = h.slots.held t j live slot in
      runnable-Inv j (cleaned t b) (update c v none) h'
        (λ u on e. elim (Bool-cases (u == t)) [
          | inl q ↦ on (ground (arith, ==_refl t))
          | inr q ↦
              let same = h.slots.one u t j (λ x. on (ground arith)) live (ground arith) slot in
              ground (arith, same)
        ])
        (λ q. ground arith)

  pub exit-Inv :
      (v t ret : ℕ) (b b' : Pvcq) (c : ℕ → Option ℕ)
      → Inv p.max_vcores b c
      → c v ≡ some t
      → exit_cb p mem t (exit_start p mem t ret b) ≡ some b'
      → Inv p.max_vcores b' (update c v none)
  unfolding exit_start exit_cb
  exit-Inv v t ret b b' c h at e =
      let s = exit_start p mem t ret b in
      let s₁ = call (uthread_cleanup t) (to_state exiting t s) in
      let h' : Inv p.max_vcores s c =
        same-Inv p.max_vcores b s c h (λ v. refl) (λ v. refl) (λ u. ground arith)
          (λ u. ground arith) (λ u. ground arith) refl refl in
      elim (Bool-cases (s.tcb t).detached) [
        | inl gone ↦
            let gone' : (s₁.tcb t).detached ≡ true = ground (arith, ==_refl t) in
            let a : exit_cb p mem t s ≡ free p mem t s₁ = rw (gone', exit_cb) refl in
            free-Inv p mem t s₁ b' p.max_vcores (update c v none) (sym a ∙ e) (
              exited-Inv p.max_vcores v t s s₁ c h' at refl refl refl (ground (arith, ==_refl t))
                (λ u. ground arith) (λ u ne. ground arith) (λ u ne. ground arith))
        | inr stays ↦
            subst (λ x. Inv p.max_vcores x (update c v none))
              (some_inj (sym (exit_cb-swaps p mem t (s.tcb t).joiner s stays refl) ∙ e))
              (woken-Inv v t (s.tcb t).joiner s c h' at refl)
      ]

  pub create-Inv :
      (mmap : ℕ → Option ℕ) (attr : Option Attr) (start_routine arg t : ℕ) (b b' : Pvcq)
      (c : ℕ → Option ℕ)
      → Inv p.max_vcores b c
      → is_over (b.tcb t).state ≡ true
      → upthread_create p mem mmap attr start_routine arg b ≡ some (t, b')
      → Inv p.max_vcores b' c
  unfolding upthread_create get_next_pid
  create-Inv mmap attr start_routine arg t b b' c h over e =
      let (r, done, e₁) = bind-eq-some (alloc p mem mmap _ b) _ e in
      subst (λ (x : ℕ × Pvcq). is_over (b.tcb x.0).state ≡ true → Inv p.max_vcores x.1 c)
        (some_inj e₁)
        (λ over.
          let (places, slots, free) =
            fresh-Inv p.max_vcores r.0 b r.1 _ c h over (alloc-Allocs p mem mmap _ r.0 b r.1 done)
              refl refl refl (ground (arith, ==_refl r.0)) (ground (arith, ==_refl r.0))
              (λ u ne. ground arith) in
          let kept =
            fresh-Kept p.max_vcores r.0 b r.1 _ c h.kept (alloc-Allocs p mem mmap _ r.0 b r.1 done)
              refl (ground (arith, ==_refl r.0)) (λ u ne. ground arith) in
          runnable-Inv r.0 _ c (record { places = places; slots = slots; kept = kept }) free
            (λ q. ground (arith, ==_refl r.0)))
        over
