-- ===== src/Pvcq/Renewed.antt =====
-- src/pvcq/upthread.c, lines 74-123 and 463-503: a new thread has a block that is that of no other.
use upthread.Base.{
  ℕ, ◌+◌, ◌≡◌, refl, ap, ◌∙◌, subst, inl, inr, true, Option, none, some, List, arith, ==_refl,
  bind-eq-some, some_inj, count,
}
use upthread.Tcb.{blk_joining, Attr}
use upthread.Pvcq.State.{Pvcq, Platform, get_next_pid}
use upthread.Pvcq.Queues.{pth_thread_runnable}
use upthread.Pvcq.Threads.{Memory, alloc}
use upthread.Pvcq.Lifecycle.{upthread_create}
use upthread.Pvcq.Invariant.{found}
use upthread.Pvcq.System.{is_over, IsUnowed}
use upthread.Pvcq.Entering.{IsBounded}
use upthread.Pvcq.Owed.{Owed, enter-Owed}
use upthread.Pvcq.Moves.{Inv}
use upthread.Pvcq.Freeing.{fresh-Owed}
use upthread.Pvcq.Allocated.{Allocs, alloc-Allocs, fresh-Inv}
use upthread.Pvcq.Debts.{dispatched-Enters}

module _ (p : Platform) (mem : Memory) (rounds : ℕ → Pvcq → List (ℕ → ℕ))
    (bounded : (t : ℕ) (s : Pvcq) → IsBounded (rounds t s) s)
    (dispatches : (t : ℕ) (s : Pvcq)
      → p.uthread_runnable t s ≡ pth_thread_runnable (rounds t s) t s)
    (removes : (u : ℕ) (l : List ℕ)
      → count u (mem.wfl_remove l).1 + found u (mem.wfl_remove l).0 ≡ count u l) where
  -- The block of a new thread is that of no other.
  pub unused :
      (t : ℕ) (b s₁ : Pvcq) (joining : ℕ → Option ℕ)
      → Owed b joining
      → Allocs mem t b s₁
      → ((mem.wfl_remove b.zombie_list).0 ≡ none
          → (is_over (b.tcb t).state ≡ true) × IsUnowed t b joining)
      → (is_over (b.tcb t).state ≡ true)
        × (count t s₁.zombie_list ≡ 0)
        × ((u : ℕ) → joining u ≡ some t → (b.tcb u).state ≡ blk_joining)
  unused t b s₁ joining o a mapped = elim a.source [
    | inl q ↦
        let r = removes t b.zombie_list in
        let took : found t (mem.wfl_remove b.zombie_list).0 ≡ 1 =
          ap (found t) q ∙ ground (arith, ==_refl t) in
        let left = ap (count t) a.dead in
        (
          ground (arith, o.gone t (omega (arith, r, took))),
          omega (arith, r, took, left, o.listed t),
          λ u k. elim (o.pending u t k) [
            | inl blocked ↦ blocked
            | inr (gone, unlisted) ↦ absurd (omega (arith, r, took, unlisted))
          ],
        )
    | inr q ↦
        let r = removes t b.zombie_list in
        let left = ap (count t) a.dead in
        let (over, (unlisted, unowed)) = mapped q in
        (over, omega (arith, r, left, unlisted), unowed)
  ]

  pub create-Allocs :
      (mmap : ℕ → Option ℕ) (attr : Option Attr) (start_routine arg t : ℕ) (b b' : Pvcq)
      → upthread_create p mem mmap attr start_routine arg b ≡ some (t, b')
      → (s₁ : Pvcq) × Allocs mem t b s₁
  unfolding upthread_create
  create-Allocs mmap attr start_routine arg t b b' e =
      let (r, done, e₁) = bind-eq-some (alloc p mem mmap _ b) _ e in
      subst (λ (x : ℕ × Pvcq). (s₁ : Pvcq) × Allocs mem x.0 b s₁) (some_inj e₁)
        (r.1, alloc-Allocs p mem mmap _ r.0 b r.1 done)

  pub create-Owed :
      (mmap : ℕ → Option ℕ) (attr : Option Attr) (start_routine arg t : ℕ) (b b' : Pvcq)
      (c joining : ℕ → Option ℕ)
      → Inv p.max_vcores b c
      → Owed b joining
      → ((mem.wfl_remove b.zombie_list).0 ≡ none
          → (is_over (b.tcb t).state ≡ true) × IsUnowed t b joining)
      → upthread_create p mem mmap attr start_routine arg b ≡ some (t, b')
      → Owed b' joining
  unfolding upthread_create get_next_pid
  create-Owed mmap attr start_routine arg t b b' c joining h o mapped e =
      let (r, done, e₁) = bind-eq-some (alloc p mem mmap _ b) _ e in
      subst
        (λ (x : ℕ × Pvcq).
          ((mem.wfl_remove b.zombie_list).0 ≡ none
            → (is_over (b.tcb x.0).state ≡ true) × IsUnowed x.0 b joining)
          → Owed x.1 joining)
        (some_inj e₁)
        (λ mapped.
          let a = alloc-Allocs p mem mmap _ r.0 b r.1 done in
          let (over, unlisted, unowed) = unused r.0 b r.1 joining o a mapped in
          enter-Owed p.max_vcores r.0 _ _ joining
            (fresh-Owed r.0 b _ joining o (λ q. ground arith)
              (λ u. omega (arith, removes u b.zombie_list, ap (count u) a.dead)) unlisted unowed
              (ground (arith, ==_refl r.0)) (λ u ne. ground (arith, a.others u ne))
              (λ q. ground (arith, ==_refl r.0)))
            (λ q. ground (arith, ==_refl r.0)) (λ q. ground (arith, ==_refl r.0))
            (dispatched-Enters p mem rounds bounded dispatches r.0 _ c
              (fresh-Inv p.max_vcores r.0 b r.1 _ c h over a refl refl refl
                (ground (arith, ==_refl r.0)) (ground (arith, ==_refl r.0))
                (λ u ne. ground arith)).0
              (λ q. ground (arith, ==_refl r.0))))
        mapped
