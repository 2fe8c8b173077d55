-- ===== src/Pvcq/Places.antt =====
-- src/pvcq/upthread.c: where the threads of Pvcq/System can be, on a vcore or in a queue, and how
-- the parts of its steps move them.
use upthread.Base.{
  ℕ, ◌≤◌, ◌<◌, ◌≡◌, sym, ap, ◌∙◌, subst, ◌≢◌, ◌⊎◌, inl, inr, true, Option, some, List, [], arith,
  ltb, ◌==◌, Bool-cases, same, some_inj, count, count-nil,
}
use upthread.Base.Sums.{update, weight-le-total, total-eq-zero, total_same}
use upthread.Tcb.{Tcb, runnable, running}
use upthread.Pvcq.State.{VcMgmt, Pvcq, Call, to_state}
use upthread.Pvcq.Invariant.{IsValid, queued, Takes}
use upthread.Pvcq.Entering.{Enters, IsCounter}

-- A thread that a vcore runs is in state UPTH_RUNNING and so in no queue, and no other vcore runs
-- it; no thread is queued twice.
pub record Places (m : ℕ) (b : Pvcq) (current : ℕ → Option ℕ) : Type 0 where
  pub valid : IsValid b
  pub once : (t : ℕ) → queued m t b ≤ 1
  pub runs : (v t : ℕ) → current v ≡ some t → (b.tcb t).state ≡ running
  pub apart : (v w t : ℕ) → current v ≡ some t → current w ≡ some t → v ≡ w
  pub below : (t : ℕ) → (b.tcb t).preferred_vcq < m
  pub counter : IsCounter m b.nr_vcores b.next_queue_id
  pub beyond : (v : ℕ) → m ≤ v → (b.vc_mgmt v).tqueue ≡ []

same-IsCounter :
    (m : ℕ) (b b' : Pvcq)
    → b'.nr_vcores ≡ b.nr_vcores
    → b'.next_queue_id ≡ b.next_queue_id
    → IsCounter m b.nr_vcores b.next_queue_id
    → IsCounter m b'.nr_vcores b'.next_queue_id
same-IsCounter m b b' nr next (k, e, lt, le) = (k, nr ∙ e, ground (arith, next, lt), le)

pub queued_same :
    (m t : ℕ) (b b' : Pvcq)
    → ((v : ℕ) → (b'.vc_mgmt v).tqueue ≡ (b.vc_mgmt v).tqueue)
    → queued m t b' ≡ queued m t b
queued_same m t b b' queue =
    total_same (λ (vc : VcMgmt). count t vc.tqueue) (λ (vc : VcMgmt). count t vc.tqueue) m
      b'.vc_mgmt b.vc_mgmt (λ v lt. ap (count t) (queue v))

-- A change of the control blocks; vcores may stop, and none starts.
pub move-Places :
    (m : ℕ) (b b' : Pvcq) (c c' : ℕ → Option ℕ)
    → Places m b c
    → ((v : ℕ) → (b'.vc_mgmt v).tqueue ≡ (b.vc_mgmt v).tqueue)
    → ((v : ℕ) → (b'.vc_mgmt v).tqsize ≡ (b.vc_mgmt v).tqsize)
    → ((u : ℕ) → (b.tcb u).state ≡ runnable → (b'.tcb u).state ≡ runnable)
    → ((u : ℕ) → (b'.tcb u).preferred_vcq < m)
    → b'.nr_vcores ≡ b.nr_vcores
    → b'.next_queue_id ≡ b.next_queue_id
    → ((w u : ℕ) → c' w ≡ some u → (c w ≡ some u) × ((b'.tcb u).state ≡ running))
    → Places m b' c'
move-Places m b b' c c' h queue size ready below nr next ran = record {
  valid = record {
    sized = λ v. ground (arith, h.valid.sized v, queue v, size v);
    queued_runnable =
        λ u v k. ready u (h.valid.queued_runnable u v (subst (λ q. 1 ≤ count u q) (queue v) k));
  };
  once = λ t. subst (λ n. n ≤ 1) (sym (queued_same m t b b' queue)) (h.once t);
  runs = λ v t e. (ran v t e).1;
  apart = λ v w t e k. h.apart v w t (ran v t e).0 (ran w t k).0;
  below = below;
  counter = same-IsCounter m b b' nr next h.counter;
  beyond = λ v le. queue v ∙ h.beyond v le;
}

-- A thread that is not runnable is in no queue.
pub outside : (m t : ℕ) (b : Pvcq) → IsValid b → (b.tcb t).state ≢ runnable → queued m t b ≡ 0
outside m t b w ne = sym (
    total-eq-zero (λ (vc : VcMgmt). count t vc.tqueue) m b.vc_mgmt
      (λ v. ground (arith, w.queued_runnable t v)))

-- A thread that neither runs nor is queued enters a queue.
pub enter-Places :
    (m t : ℕ) (b b' : Pvcq) (c : ℕ → Option ℕ)
    → Places m b c
    → (b.tcb t).state ≢ runnable
    → (b.tcb t).state ≢ running
    → Enters m t b b'
    → Places m b' c
enter-Places m t b b' c h out stopped k = record {
  valid = k.valid;
  once = λ u. elim (Bool-cases (u == t)) [
    | inl e ↦
        let e' : u ≡ t = ground arith in
        let z : queued m u b ≡ 0 =
          subst (λ x. queued m x b ≡ 0) (sym e') (outside m t b h.valid out) in
        ground (arith, k.kept u, z)
    | inr e ↦ ground (arith, k.kept u, h.once u)
  ];
  runs = λ v u e.
      let r = h.runs v u e in
      ap (λ (x : Tcb). x.state)
        (k.same_tcb u (λ q. stopped (subst (λ x. (b.tcb x).state ≡ running) q r)))
      ∙ r;
  apart = h.apart;
  below = λ u. elim (Bool-cases (u == t)) [
    | inl e ↦
        let e' : u ≡ t = ground arith in subst (λ x. (b'.tcb x).preferred_vcq < m) (sym e') k.below
    | inr e ↦
        subst (λ (x : Tcb). x.preferred_vcq < m) (sym (k.same_tcb u (ground arith))) (h.below u)
  ];
  counter = k.counter;
  beyond = λ v le. k.beyond v le ∙ h.beyond v le;
}

-- A vcore that takes a thread out of a queue, and does not run it yet.
pub take-Places :
    (m self : ℕ) (b : Pvcq) (c : ℕ → Option ℕ) (r : Option ℕ × Pvcq)
    → self < m
    → Places m b c
    → Takes m self b r
    → Places m r.1 c
take-Places m self b c r lt h k = record {
  valid = k.valid;
  once = λ t. omega (arith, k.kept t, h.once t);
  runs = λ v t e. (k.same t).state ∙ h.runs v t e;
  apart = h.apart;
  below = λ t. ground (arith, (k.same t).preferred, h.below t);
  counter = same-IsCounter m b r.1 k.same_nr k.same_next h.counter;
  beyond = λ v le. k.beyond v le ∙ h.beyond v le;
}

starts :
    (c : ℕ → Option ℕ) (v t w u : ℕ)
    → update c v (some t) w ≡ some u
    → ((w ≡ v) × (u ≡ t)) ⊎ (c w ≡ some u)
starts c v t w u e = elim (Bool-cases (w == v)) [
  | inl same ↦ let e' : some t ≡ some u = ground arith in inl (ground arith, sym (some_inj e'))
  | inr other ↦ inr (ground arith)
]

-- A runnable thread that stands in no queue is run by a vcore.
pub run-Places :
    (m v t : ℕ) (calls : List Call) (b : Pvcq) (c : ℕ → Option ℕ)
    → Places m b c
    → (b.tcb t).state ≡ runnable
    → queued m t b ≡ 0
    → Places m (record (to_state running t b) { calls = calls }) (update c v (some t))
run-Places m v t calls b c h st out = record {
  valid = record {
    sized = λ x. h.valid.sized x;
    queued_runnable = λ u x k. elim (Bool-cases (u == t)) [
      | inl e ↦ absurd (nowhere x (subst (λ y. 1 ≤ count y (b.vc_mgmt x).tqueue) (==_eq u t e) k))
      | inr e ↦ ground (arith, h.valid.queued_runnable u x k)
    ];
  };
  once = h.once;
  runs = λ w u e. ground (arith, h.runs w u, starts c v t w u e);
  apart = λ w x u e k.
      ground (arith, h.runs w t, h.runs x t, h.apart w x u, starts c v t w u e, starts c v t x u k);
  below = λ u. ground (arith, h.below u, h.below t);
  counter = h.counter;
  beyond = h.beyond;
}
  where
    ==_eq : (u t : ℕ) → (u == t) ≡ true → u ≡ t
    ==_eq u t e = ground arith

    nowhere : (x : ℕ) → 1 ≤ count t (b.vc_mgmt x).tqueue → ⊥
    nowhere x k = elim (Bool-cases (ltb x m)) [
      | inl lt ↦
          let le =
            weight-le-total (λ (vc : VcMgmt). count t vc.tqueue) m b.vc_mgmt x (ground arith) in
          omega (arith, le, out)
      | inr ge ↦ ground (arith, ap (count t) (h.beyond x (ground arith)), count-nil t)
    ]
