-- ===== src/Pvcq/Allocated.antt =====
-- src/pvcq/upthread.c, lines 74-103 and 462-497: the block of a new thread in Pvcq/System.
use upthread.Base.{
  ℕ, ◌+◌, ◌<◌, ◌≡◌, refl, sym, ap, ◌∙◌, subst, ◌≢◌, ◌⊎◌, inl, inr, true, Option, none, some, arith,
  ◌==◌, ==_refl, Bool-cases, Option-cases, ◌>>=◌, bind-eq-some, some_inj,
}
use upthread.Tcb.{created, Tcb, ptr_sub}
use upthread.Pvcq.State.{VcMgmt, Pvcq, Platform, with_vc, with_tcb}
use upthread.Pvcq.Threads.{Memory, alloc, mapping, block_at}
use upthread.Pvcq.System.{is_over}
use upthread.Pvcq.Places.{move-Places, Places}
use upthread.Pvcq.Kept.{Kept, move-Kept}
use upthread.Pvcq.Slots.{IsLoose, loose, clear-Slots, Slots}
use upthread.Pvcq.Moves.{Inv}

-- What `__upthread_alloc` leaves as it was, but for the block that it gives.
pub record Allocs (mem : Memory) (t : ℕ) (s s' : Pvcq) : Type 0 where
  pub queue : (v : ℕ) → (s'.vc_mgmt v).tqueue ≡ (s.vc_mgmt v).tqueue
  pub size : (v : ℕ) → (s'.vc_mgmt v).tqsize ≡ (s.vc_mgmt v).tqsize
  pub others : (u : ℕ) → u ≢ t → s'.tcb u ≡ s.tcb u
  pub preferred :
      ((s'.tcb t).preferred_vcq ≡ (s.tcb t).preferred_vcq) ⊎ ((s'.tcb t).preferred_vcq ≡ 0)
  pub nr : s'.nr_vcores ≡ s.nr_vcores
  pub counter : s'.next_queue_id ≡ s.next_queue_id
  pub dead : s'.zombie_list ≡ (mem.wfl_remove s.zombie_list).1
  pub source :
      ((mem.wfl_remove s.zombie_list).0 ≡ some t) ⊎ ((mem.wfl_remove s.zombie_list).0 ≡ none)

pub alloc-Allocs :
    (p : Platform) (mem : Memory) (mmap : ℕ → Option ℕ) (stacksize t : ℕ) (s s' : Pvcq)
    → alloc p mem mmap stacksize s ≡ some (t, s')
    → Allocs mem t s s'
unfolding alloc
alloc-Allocs p mem mmap stacksize t s s' e = elim (Option-cases (mem.wfl_remove s.zombie_list).0) [
  | inr (u, q) ↦
      let a : alloc p mem mmap stacksize s ≡ some (u, s₁) = rw (q, alloc) refl in
      subst (λ (x : ℕ × Pvcq). Allocs mem x.0 s x.1) (some_inj (sym a ∙ e))
        (record {
          queue = λ v. refl;
          size = λ v. refl;
          others = λ u ne. refl;
          preferred = inl refl;
          nr = refl;
          counter = refl;
          dead = refl;
          source = inl q;
        })
  | inl q ↦
      let (offset, size, seed) = mapping p mem stacksize (s.vc_mgmt 0).rseed in
      let s₂ = with_vc 0 (λ vc. record vc { rseed = seed }) s₁ in
      let f : ℕ → Option (ℕ × Pvcq) = λ stackbot.
        (let u = ptr_sub (stackbot + size) offset in
          some (u, with_tcb u (λ b. block_at p mem stackbot size offset) s₂)) in
      let a : alloc p mem mmap stacksize s ≡ (mmap size >>= f) = rw (q, alloc) refl in
      let (stackbot, _, e') = bind-eq-some (mmap size) f (sym a ∙ e) in
      subst (λ (x : ℕ × Pvcq). Allocs mem x.0 s x.1) (some_inj e')
        (record {
          queue = λ v. ground arith;
          size = λ v. ground arith;
          others = λ u ne. ground arith;
          preferred = inr (ground (arith, ==_refl (ptr_sub (stackbot + size) offset)));
          nr = refl;
          counter = refl;
          dead = refl;
          source = inr q;
        })
]
  where
    s₁ : Pvcq
    s₁ = record s { zombie_list = (mem.wfl_remove s.zombie_list).1 }

-- The block of no thread, or of one that has exited, becomes that of a new thread.
pub fresh-Inv :
    {mem : Memory} (m t : ℕ) (b s₁ b' : Pvcq) (c : ℕ → Option ℕ)
    → Inv m b c
    → is_over (b.tcb t).state ≡ true
    → Allocs mem t b s₁
    → b'.vc_mgmt ≡ s₁.vc_mgmt
    → b'.nr_vcores ≡ s₁.nr_vcores
    → b'.next_queue_id ≡ s₁.next_queue_id
    → (b'.tcb t).joiner ≡ none
    → (b'.tcb t).preferred_vcq ≡ (s₁.tcb t).preferred_vcq
    → ((u : ℕ) → u ≢ t → b'.tcb u ≡ s₁.tcb u)
    → Places m b' c × Slots b'.tcb × IsLoose b'.tcb t
fresh-Inv m t b s₁ b' c h over a vc nr next empty pr others = (
  move-Places m b b' c c h.places (λ v. ap (λ (f : ℕ → VcMgmt). (f v).tqueue) vc ∙ a.queue v)
      (λ v. ap (λ (f : ℕ → VcMgmt). (f v).tqsize) vc ∙ a.size v)
      (λ u e. ap (λ (x : Tcb). x.state) (kept u (λ q. not_over u q (λ x. ground arith))) ∙ e) below
      (nr ∙ a.nr) (next ∙ a.counter)
      (λ w u e.
        let ran = h.places.runs w u e in
        (e, ap (λ (x : Tcb). x.state) (kept u (λ q. not_over u q (λ x. ground arith))) ∙ ran)),
  clear-Slots b.tcb b'.tcb t h.slots free (inr empty)
      (λ u ne. ap (λ (x : Tcb). x.state) (kept u ne))
      (λ u ne. ap (λ (x : Tcb). x.joiner) (kept u ne)),
  λ u live e. elim (Bool-cases (u == t)) [
    | inl q ↦
        let q' : u ≡ t = ground arith in
        let e' = sym e ∙ ap (λ x. (b'.tcb x).joiner) q' ∙ empty in ground arith
    | inr q ↦
        let k = kept u (ground arith) in
        free u (λ x. live (ap (λ (y : Tcb). y.state) k ∙ x))
          (sym (ap (λ (y : Tcb). y.joiner) k) ∙ e)
  ],
)
  where
    kept : (u : ℕ) → u ≢ t → b'.tcb u ≡ b.tcb u
    kept u ne = others u ne ∙ a.others u ne

    free : IsLoose b.tcb t
    free = loose b.tcb t h.slots (λ e. ground arith)

    not_over : (u : ℕ) → u ≡ t → (is_over (b.tcb u).state ≢ true) → ⊥
    not_over u q k = k (ap (λ x. is_over (b.tcb x).state) q ∙ over)

    below : (u : ℕ) → (b'.tcb u).preferred_vcq < m
    below u = elim (Bool-cases (u == t)) [
      | inl q ↦
          let q' : u ≡ t = ground arith in
          subst (λ x. (b'.tcb x).preferred_vcq < m) (sym q')
            (ground (arith, pr, a.preferred, h.places.below t))
      | inr q ↦
          subst (λ (x : Tcb). x.preferred_vcq < m) (sym (kept u (ground arith))) (h.places.below u)
    ]

-- No thread is lost by it.
pub fresh-Kept :
    {mem : Memory} (m t : ℕ) (b s₁ b' : Pvcq) (c : ℕ → Option ℕ)
    → Kept m b c
    → Allocs mem t b s₁
    → b'.vc_mgmt ≡ s₁.vc_mgmt
    → (b'.tcb t).state ≡ created
    → ((u : ℕ) → u ≢ t → b'.tcb u ≡ s₁.tcb u)
    → Kept m b' c
fresh-Kept m t b s₁ b' c h a vc fresh others =
    move-Kept m b b' c c h (λ v. ap (λ (f : ℕ → VcMgmt). (f v).tqueue) vc ∙ a.queue v)
      (λ u e. sym (kept u (λ q. is_fresh u q (λ x. ground arith))) ∙ e)
      (λ u e. (sym (kept u (λ q. is_fresh u q (λ x. ground arith))) ∙ e, λ v at. at))
  where
    kept : (u : ℕ) → u ≢ t → (b'.tcb u).state ≡ (b.tcb u).state
    kept u ne = ap (λ (x : Tcb). x.state) (others u ne ∙ a.others u ne)

    is_fresh : (u : ℕ) → u ≡ t → (b'.tcb u).state ≢ created → ⊥
    is_fresh u q k = k (ap (λ x. (b'.tcb x).state) q ∙ fresh)
