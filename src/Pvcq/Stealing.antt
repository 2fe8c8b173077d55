-- ===== src/Pvcq/Stealing.antt =====
-- src/pvcq/upthread.c, lines 208-223: how `steal_threads` moves threads between the queues.
use upthread.Base.{
  ℕ, zero, suc, ◌-◌, ◌≤◌, ◌<◌, ◌≡◌, refl, sym, ◌∙◌, subst, ◌≢◌, inl, inr, true, false, Option, none,
  some, [], arith, ◌==◌, Bool-cases, Option-cases, length, nonzero,
}
use upthread.Pvcq.State.{Pvcq}
use upthread.Pvcq.Queues.{thread_enqueue, steal_loop, steal_threads, stole, num_to_steal, tdequeue}
use upthread.Pvcq.Inserting.{Puts, enqueue-Puts}
use upthread.Pvcq.Invariant.{
  IsTaken, IsValid, queued, SameBlock, SameBlock-refl, SameBlock-trans, Takes, nothing-Takes,
  tdequeue-Takes, tdequeue-some,
}

-- What an operation by `self` keeps that neither takes a thread out nor puts one in.
pub record Keeps (m self : ℕ) (s s' : Pvcq) : Type 0 where
  pub valid : IsValid s'
  pub kept : (u : ℕ) → queued m u s' ≡ queued m u s
  pub stays : (u : ℕ) → IsTaken self u s → IsTaken self u s'
  pub same : (u : ℕ) → SameBlock self (s.tcb u) (s'.tcb u)
  pub same_steal : s'.can_steal ≡ s.can_steal
  pub same_nr : s'.nr_vcores ≡ s.nr_vcores
  pub same_next : s'.next_queue_id ≡ s.next_queue_id
  pub same_dead : s'.zombie_list ≡ s.zombie_list
  pub beyond : (x : ℕ) → m ≤ x → (s'.vc_mgmt x).tqueue ≡ (s.vc_mgmt x).tqueue

stays-put :
    (m self u t : ℕ) (s s' : Pvcq)
    → Puts m t s s'
    → IsTaken self t s
    → IsTaken self u s
    → IsTaken self u s'
stays-put m self u t s s' q held h = elim (Bool-cases (u == t)) [
  | inl e ↦ ground (arith, q.still)
  | inr e ↦ ground (arith, q.same_tcb u)
]

same-put :
    (m self t : ℕ) (s s' : Pvcq)
    → Puts m t s s'
    → IsTaken self t s
    → (u : ℕ) → SameBlock self (s.tcb u) (s'.tcb u)
same-put m self t s s' q held u = elim (Bool-cases (u == t)) [
  | inl e ↦
      let e' : u ≡ t = ground arith in
      subst (λ x. SameBlock self (s.tcb x) (s'.tcb x)) (sym e')
        (record {
          state = ground (arith, q.still, held);
          joiner = q.same_slot;
          preferred = inl q.still.1;
        })
  | inr e ↦
      subst (λ x. SameBlock self (s.tcb u) x) (sym (q.same_tcb u (ground arith)))
        (SameBlock-refl self (s.tcb u))
]

pub steal_loop-Keeps :
    (rounds m self v : ℕ) (s : Pvcq)
    → self < m
    → v < m
    → IsValid s
    → Keeps m self s (steal_loop rounds self v s)
unfolding steal_loop
steal_loop-Keeps zero m self v s ls lv w = record {
  valid = w;
  kept = λ u. refl;
  stays = λ u h. h;
  same = λ u. SameBlock-refl self (s.tcb u);
  same_steal = refl;
  same_nr = refl;
  same_next = refl;
  same_dead = refl;
  beyond = λ x le. refl;
}
steal_loop-Keeps (suc rounds) m self v s ls lv w =
    let k = tdequeue-Takes m self v s lv w in
    elim (Option-cases (tdequeue self v s).0) [
      | inl e ↦
          rw (e, steal_loop)
            (record {
              valid = k.valid;
              kept = λ u. ground (arith, k.kept u);
              stays = k.stays;
              same = k.same;
              same_steal = k.same_steal;
              same_nr = k.same_nr;
              same_next = k.same_next;
              same_dead = k.same_dead;
              beyond = k.beyond;
            })
      | inr (t, e) ↦
          let s₁ = (tdequeue self v s).1 in
          let s₂ = (thread_enqueue [] t false s₁).1 in
          let held = k.taken t e in
          let q = enqueue-Puts m self t false s₁ ls held.0 held.1 k.valid in
          let r = steal_loop-Keeps rounds m self v s₂ ls lv q.valid in
          rw (e, steal_loop)
            (record {
              valid = r.valid;
              kept = λ u. ground (arith, r.kept u, q.kept u, k.kept u);
              stays = λ u h. r.stays u (stays-put m self u t s₁ s₂ q held (k.stays u h));
              same = λ u.
                  SameBlock-trans self _ _ _ (k.same u)
                    (SameBlock-trans self _ _ _ (same-put m self t s₁ s₂ q held u) (r.same u));
              same_steal = r.same_steal ∙ q.same_steal ∙ k.same_steal;
              same_nr = r.same_nr ∙ q.same_nr ∙ k.same_nr;
              same_next = r.same_next ∙ q.same_next ∙ k.same_next;
              same_dead = r.same_dead ∙ q.same_dead ∙ k.same_dead;
              beyond = λ x le. r.beyond x le ∙ q.beyond x le ∙ k.beyond x le;
            })
    ]

stole-Takes :
    (num m self v : ℕ) (s : Pvcq) (r : Option ℕ × Pvcq)
    → self < m
    → v < m
    → Takes m self s r
    → Takes m self s (stole num self v r)
stole-Takes num m self v s (none, s₁) ls lv k = k
stole-Takes num m self v s (some t, s₁) ls lv k =
    let r = steal_loop-Keeps (num - 1) m self v s₁ ls lv k.valid in
    record {
      valid = r.valid;
      kept = λ u. ground (arith, r.kept u, k.kept u);
      taken = λ u e. r.stays u (k.taken u e);
      stays = λ u h. r.stays u (k.stays u h);
      same = λ u. SameBlock-trans self _ _ _ (k.same u) (r.same u);
      same_steal = r.same_steal ∙ k.same_steal;
      same_nr = r.same_nr ∙ k.same_nr;
      same_next = r.same_next ∙ k.same_next;
      same_dead = r.same_dead ∙ k.same_dead;
      beyond = λ x le. r.beyond x le ∙ k.beyond x le;
    }

stole-some : (num self v : ℕ) (r : Option ℕ × Pvcq) → r.0 ≢ none → (stole num self v r).0 ≢ none
stole-some num self v (none, s) h = absurd (h refl)
stole-some num self v (some t, s) h = h

-- `steal_threads` gives up one thread, and moves the others that it takes to the thief's queue.
pub steal_threads-Takes :
    (m self v : ℕ) (s : Pvcq)
    → self < m
    → v < m
    → IsValid s
    → Takes m self s (steal_threads self v s)
unfolding steal_threads
steal_threads-Takes m self v s ls lv w =
    let k = tdequeue-Takes m self v s lv w in
    elim (Bool-cases (nonzero (num_to_steal (s.vc_mgmt v).tqsize))) [
      | inl e ↦ rw (e, steal_threads) (stole-Takes _ m self v s _ ls lv k)
      | inr e ↦ rw (e, steal_threads) (nothing-Takes m self s w)
    ]

-- Stealing from a queue that is not empty finds a thread.
pub steal_threads-some :
    (self v : ℕ) (s : Pvcq)
    → IsValid s
    → 1 ≤ length (s.vc_mgmt v).tqueue
    → (steal_threads self v s).0 ≢ none
unfolding steal_threads
steal_threads-some self v s w h =
    let e : nonzero (num_to_steal (s.vc_mgmt v).tqsize) ≡ true = ground (arith, w.sized v) in
    rw (e, steal_threads) (stole-some _ self v (tdequeue self v s) (tdequeue-some self v s w h))
