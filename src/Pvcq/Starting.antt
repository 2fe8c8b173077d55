-- ===== src/Pvcq/Starting.antt =====
-- src/pvcq/upthread.c, lines 415-460: the state in which Pvcq/System starts.
use upthread.Base.{
  ℕ, ◌+◌, List, [], ◌<◌, ◌≡◌, refl, sym, ap, ◌∙◌, subst, ◌≢◌, inl, inr, Option, none, some, arith,
  ◌==◌, assert, ==_refl, Bool-cases, bind-eq-some, some_inj, length, count, count-nil, ℤ, pos,
}
use upthread.Base.Sums.{update, total-eq-zero}
use upthread.Tcb.{Tcb, running, zeroed, created}
use upthread.Pvcq.State.{VcMgmt, Pvcq, Platform, set_num_vcores, get_next_pid}
use upthread.Pvcq.Threads.{Memory, alloc}
use upthread.Pvcq.System.{is_over}
use upthread.Pvcq.Lifecycle.{upthread_lib_init, first_vc}
use upthread.Pvcq.Slots.{Slots, IsLoose}
use upthread.Pvcq.Places.{Places}
use upthread.Pvcq.Entering.{IsCounter}
use upthread.Pvcq.Moves.{Inv}
use upthread.Pvcq.Invariant.{found}
use upthread.Pvcq.Owed.{Owed}
use upthread.Pvcq.Allocated.{alloc-Allocs, fresh-Inv}

-- Empty queues and zeroed memory.
empty-Inv :
    (m : ℕ) (b : Pvcq)
    → 0 < m
    → b.vc_mgmt ≡ first_vc
    → b.tcb ≡ (λ _. zeroed)
    → IsCounter m b.nr_vcores b.next_queue_id
    → Inv m b (λ _. none)
unfolding count
empty-Inv m b lt vc mem counter = record {
  places = record {
    valid = record {
      sized =
          λ v. subst (λ (f : ℕ → VcMgmt). (f v).tqsize ≡ pos (length (f v).tqueue)) (sym vc) refl;
      queued_runnable = λ t v k. absurd (ground (arith, nowhere t v));
    };
    once = λ t. omega (
      arith,
      sym (total-eq-zero (λ (x : VcMgmt). count t x.tqueue) m b.vc_mgmt (λ v. sym (nowhere t v))),
    );
    runs = λ v t e. absurd (ground arith);
    apart = λ v w t e k. absurd (ground arith);
    below = λ t. subst (λ (f : ℕ → Tcb). (f t).preferred_vcq < m) (sym mem) lt;
    counter = counter;
    beyond = λ v le. ap (λ (f : ℕ → VcMgmt). (f v).tqueue) vc;
  };
  slots = subst Slots (sym mem) (record {
    held = λ u j k e. absurd (ground arith);
    one = λ u w j k l e f. absurd (ground arith);
  });
  kept = record {
    ready = λ t e. absurd (ground (arith, ap (λ (f : ℕ → Tcb). (f t).state) mem));
    active = λ t e. absurd (ground (arith, ap (λ (f : ℕ → Tcb). (f t).state) mem));
  };
}
  where
    nowhere : (t v : ℕ) → count t (b.vc_mgmt v).tqueue ≡ 0
    nowhere t v = ap (λ (f : ℕ → VcMgmt). count t (f v).tqueue) vc ∙ count-nil t

-- The main thread runs on vcore 0.
main-Inv :
    (m t : ℕ) (b : Pvcq)
    → Places m b (λ _. none) × Slots b.tcb × IsLoose b.tcb t
    → (b.tcb t).state ≡ running
    → ((u : ℕ) → u ≢ t → (b.tcb u).state ≡ created)
    → Inv m b (update (λ _. none) 0 (some t))
main-Inv m t b (h, slots, free) st others = record {
  places = record {
    valid = h.valid;
    once = h.once;
    runs = λ v u e. subst (λ x. (b.tcb x).state ≡ running) (only v u e).1 st;
    apart = λ v w u e k. sym (only v u e).0 ∙ (only w u k).0;
    below = h.below;
    counter = h.counter;
    beyond = h.beyond;
  };
  slots = slots;
  kept = record {
    ready = λ u e. elim (Bool-cases (u == t)) [
      | inl q ↦ absurd (is_main u (ground arith) (λ x. ground arith))
      | inr q ↦ absurd (ground (arith, others u (ground arith)))
    ];
    active = λ u e. elim (Bool-cases (u == t)) [
      | inl q ↦ (0, ap some (ground arith))
      | inr q ↦ absurd (ground (arith, others u (ground arith)))
    ];
  };
}
  where
    is_main : (u : ℕ) → u ≡ t → (b.tcb u).state ≢ running → ⊥
    is_main u q k = k (ap (λ x. (b.tcb x).state) q ∙ st)

    only : (v u : ℕ) → update (λ _. none) 0 (some t) v ≡ some u → (0 ≡ v) × (t ≡ u)
    only v u e = elim (Bool-cases (v == 0)) [
      | inl q ↦ let k : some t ≡ some u = ground arith in (ground arith, some_inj k)
      | inr q ↦ absurd (ground arith)
    ]

pub init-Inv :
    (p : Platform) (mem : Memory) (mmap : ℕ → Option ℕ) (spin_count : Option ℤ)
    (stackbottom stacksize t : ℕ) (b₀ b : Pvcq)
    → 0 < p.max_vcores
    → b₀.tcb ≡ (λ _. zeroed)
    → upthread_lib_init p mem mmap spin_count stackbottom stacksize b₀ ≡ some (t, b)
    → Inv p.max_vcores b (update (λ _. none) 0 (some t))
unfolding upthread_lib_init set_num_vcores get_next_pid
init-Inv p mem mmap spin_count stackbottom stacksize t b₀ b lt zero_memory e =
    let m = p.max_vcores in
    let s₁ = set_num_vcores p (pos m) (record b₀ { vc_mgmt = first_vc }) in
    let s₂ = record s₁ {
      max_spin_count = elim spin_count as (λ _. ℤ) [ none ↦ s₁.max_spin_count | some n ↦ n ];
    } in
    let (r, done, e₁) = bind-eq-some (alloc p mem mmap 0 s₂) _ e in
    let (_, _, e₂) = bind-eq-some (assert p.debug _) _ e₁ in
    let h = empty-Inv m s₂ lt refl zero_memory (m, ground arith, ground arith, omega arith) in
    let over = ap (λ (f : ℕ → Tcb). is_over (f r.0).state) zero_memory in
    let a = alloc-Allocs p mem mmap 0 r.0 s₂ r.1 done in
    subst (λ (x : ℕ × Pvcq). Inv m x.1 (update (λ _. none) 0 (some x.0))) (some_inj e₂)
      (main-Inv m r.0 _
        (fresh-Inv m r.0 s₂ r.1 _ (λ _. none) h over a refl refl refl (ground (arith, ==_refl r.0))
          (ground (arith, ==_refl r.0)) (λ u ne. ground arith))
        (ground (arith, ==_refl r.0))
        (λ u ne.
          let same = ap (λ (x : Tcb). x.state) (a.others u ne) in
          ground (arith, same, ap (λ (f : ℕ → Tcb). (f u).state) zero_memory)))

-- No block is freed, and nobody waits.
none-Owed :
    (b : Pvcq) (t : ℕ)
    → ((u : ℕ) → count u b.zombie_list ≡ 0)
    → (b.tcb t).joiner ≡ none
    → ((u : ℕ) → u ≢ t → (b.tcb u).joiner ≡ none)
    → Owed b (λ _. none)
none-Owed b t dead slot slots = record {
  listed = λ u. omega (arith, dead u);
  gone = λ u k. absurd (omega (arith, dead u, k));
  pending = λ u target e. absurd (ground arith);
  alone = λ u w target e f k l. absurd (ground arith);
  slot = λ u j on e. elim (Bool-cases (u == t)) [
    | inl q ↦
        let q' : u ≡ t = ground arith in
        absurd (ground (arith, e, ap (λ x. (b.tcb x).joiner) q', slot))
    | inr q ↦ absurd (ground (arith, slots u (ground arith)))
  ];
}

pub init-Owed :
    (p : Platform) (mem : Memory) (mmap : ℕ → Option ℕ) (spin_count : Option ℤ)
    (stackbottom stacksize t : ℕ) (b₀ b : Pvcq)
    → ((u : ℕ) (l : List ℕ)
        → count u (mem.wfl_remove l).1 + found u (mem.wfl_remove l).0 ≡ count u l)
    → b₀.tcb ≡ (λ _. zeroed)
    → b₀.zombie_list ≡ []
    → upthread_lib_init p mem mmap spin_count stackbottom stacksize b₀ ≡ some (t, b)
    → Owed b (λ _. none)
unfolding upthread_lib_init set_num_vcores get_next_pid
init-Owed p mem mmap spin_count stackbottom stacksize t b₀ b removes zero_memory none_dead e =
    let s₁ = set_num_vcores p (pos p.max_vcores) (record b₀ { vc_mgmt = first_vc }) in
    let s₂ = record s₁ {
      max_spin_count = elim spin_count as (λ _. ℤ) [ none ↦ s₁.max_spin_count | some n ↦ n ];
    } in
    let (r, done, e₁) = bind-eq-some (alloc p mem mmap 0 s₂) _ e in
    let (_, _, e₂) = bind-eq-some (assert p.debug _) _ e₁ in
    let a = alloc-Allocs p mem mmap 0 r.0 s₂ r.1 done in
    subst (λ (x : ℕ × Pvcq). Owed x.1 (λ _. none)) (some_inj e₂)
      (none-Owed _ r.0
        (λ u. omega (
          arith,
          ap (count u) a.dead,
          removes u b₀.zombie_list,
          ap (count u) none_dead,
          count-nil u,
        ))
        (ground (arith, ==_refl r.0))
        (λ u ne.
          let same = ap (λ (x : Tcb). x.joiner) (a.others u ne) in
          ground (arith, same, ap (λ (f : ℕ → Tcb). (f u).joiner) zero_memory)))
