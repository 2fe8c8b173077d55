-- ===== src/Pvcq/Dequeue.antt =====
-- src/pvcq/upthread.c, lines 176-246: which threads `__pth_thread_dequeue` takes.
use upthread.Base.{
  ℕ, zero, suc, ◌+◌, ◌%◌, ◌≤◌, ◌<◌, ◌∙◌, inl, inr, Bool, true, false, Option, none, some, arith,
  ◌==◌, if◌then◌else◌, Bool-cases, count, lt_int,
}
use upthread.Base.Sums.{total-update}
use native.Mathlib.Nat.{mod-lt}
use upthread.Pvcq.State.{VcMgmt, Pvcq, Platform, with_vc}
use upthread.Pvcq.Queues.{steal_one_of, or_else, scan, two_choices, thread_dequeue}
use upthread.Pvcq.Invariant.{SameBlock-trans, IsValid, Takes, tdequeue-Takes, nothing-Takes}
use upthread.Pvcq.Stealing.{steal_threads-Takes}

-- A second try starts from what the first one left.
or_else-Takes :
    (m self : ℕ) (s : Pvcq) (r : Option ℕ × Pvcq) (f : Pvcq → Option ℕ × Pvcq)
    → Takes m self s r
    → ((s₁ : Pvcq) → IsValid s₁ → Takes m self s₁ (f s₁))
    → Takes m self s (or_else r f)
or_else-Takes m self s (some t, s₁) f k h = k
or_else-Takes m self s (none, s₁) f k h =
    let r = h s₁ k.valid in
    record {
      valid = r.valid;
      kept = λ t. omega (arith, r.kept t, k.kept t);
      taken = r.taken;
      stays = λ t held. r.stays t (k.stays t held);
      same = λ t. SameBlock-trans self _ _ _ (k.same t) (r.same t);
      same_steal = r.same_steal ∙ k.same_steal;
      same_nr = r.same_nr ∙ k.same_nr;
      same_next = r.same_next ∙ k.same_next;
      same_dead = r.same_dead ∙ k.same_dead;
      beyond = λ x le. r.beyond x le ∙ k.beyond x le;
    }

if-Takes :
    (m self : ℕ) (s : Pvcq) (b : Bool) (x y : Option ℕ × Pvcq)
    → Takes m self s x
    → Takes m self s y
    → Takes m self s (if b then x else y)
if-Takes m self s true x y h k = h
if-Takes m self s false x y h k = k

module _ (p : Platform) (self : ℕ) (ls : self < p.max_vcores) where
  scan-Takes :
      (fuel i : ℕ) (s : Pvcq)
      → i < p.max_vcores
      → IsValid s
      → Takes p.max_vcores self s (scan p fuel self i s)
  unfolding scan
  scan-Takes zero i s lt w = nothing-Takes _ self s w
  scan-Takes (suc fuel) i s lt w = elim (Bool-cases (i == self)) [
    | inl e ↦ rw (e, scan) (nothing-Takes _ self s w)
    | inr e ↦
        rw (e, scan)
          (or_else-Takes _ self s _ _ (steal_threads-Takes _ self i s ls lt w) (λ s₁ w₁.
            scan-Takes fuel ((i + 1) % p.max_vcores) s₁ (mod-lt (i + 1) (omega arith)) w₁))
  ]

  one_of-Takes :
      (c d : ℕ) (s : Pvcq)
      → c < p.max_vcores
      → d < p.max_vcores
      → IsValid s
      → Takes p.max_vcores self s (steal_one_of self c d s)
  one_of-Takes c d s lc ld w = elim (Bool-cases (self == c)) [
    | inl e ↦ rw e (steal_threads-Takes _ self d s ls ld w)
    | inr e ↦ rw e (steal_threads-Takes _ self c s ls lc w)
  ]

  abbrev pub reseeded : ℕ → Pvcq → Pvcq
  reseeded seed s = with_vc self (λ vc. record vc { rseed = seed }) s

  -- A new seed changes no queue.
  pub reseeded-IsValid : (seed : ℕ) (s : Pvcq) → IsValid s → IsValid (reseeded seed s)
  reseeded-IsValid seed s w = record {
    sized = λ v. ground (arith, w.sized v);
    queued_runnable = λ t v h. ground (arith, w.queued_runnable t v);
  }

  reseeded-Takes :
      (seed : ℕ) (s : Pvcq) (f : Pvcq → Option ℕ × Pvcq)
      → IsValid s
      → ((s₁ : Pvcq) → IsValid s₁ → Takes p.max_vcores self s₁ (f s₁))
      → Takes p.max_vcores self s (f (reseeded seed s))
  reseeded-Takes seed s f w h =
      let r = h (reseeded seed s) (reseeded-IsValid seed s w) in
      record {
        valid = r.valid;
        kept = λ t. ground (
          arith,
          r.kept t,
          total-update (λ (vc : VcMgmt). count t vc.tqueue) p.max_vcores s.vc_mgmt self
              (record (s.vc_mgmt self) { rseed = seed }) ls,
        );
        taken = r.taken;
        stays = r.stays;
        same = r.same;
        same_steal = r.same_steal;
        same_nr = r.same_nr;
        same_next = r.same_next;
        same_dead = r.same_dead;
        beyond = λ x le. ground (arith, r.beyond x le, ls);
      }

  module _ (some_vcore : 0 < p.num_vcores) (all_vcores : p.num_vcores ≤ p.max_vcores) where
    chosen-lt : (r : ℕ) → r % p.num_vcores < p.max_vcores
    chosen-lt r = omega (arith, mod-lt r some_vcore)

    two_choices-Takes : (s : Pvcq) → IsValid s → Takes p.max_vcores self s (two_choices p self s)
    unfolding two_choices
    two_choices-Takes s w =
        let (r₀, seed₀) = p.rand_r (s.vc_mgmt self).rseed in
        let (r₁, seed₁) = p.rand_r seed₀ in
        let c₀ = r₀ % p.num_vcores in
        let c₁ = r₁ % p.num_vcores in
        reseeded-Takes seed₁ s
          (λ s₁.
            if lt_int (s₁.vc_mgmt c₁).tqsize (s₁.vc_mgmt c₀).tqsize
            then steal_one_of self c₀ c₁ s₁
            else steal_one_of self c₁ c₀ s₁)
          w
          (λ s₁ w₁. elim (Bool-cases (lt_int (s₁.vc_mgmt c₁).tqsize (s₁.vc_mgmt c₀).tqsize)) [
            | inl e ↦ rw e (one_of-Takes c₀ c₁ s₁ (chosen-lt r₀) (chosen-lt r₁) w₁)
            | inr e ↦ rw e (one_of-Takes c₁ c₀ s₁ (chosen-lt r₁) (chosen-lt r₀) w₁)
          ])

    -- A vcore that takes a thread from the queues, by a steal or not, has a runnable thread that now
    -- prefers the vcore; the thread leaves the queues once, every other one stays as often as it was
    -- queued, and the sizes and the states of the queued threads stay right.
    pub thread_dequeue-Takes :
        (s : Pvcq) → IsValid s → Takes p.max_vcores self s (thread_dequeue p self s)
    unfolding thread_dequeue
    thread_dequeue-Takes s w =
        or_else-Takes _ self s _ _ (tdequeue-Takes _ self self s ls w) (λ s₁ w₁.
          if-Takes _ self s₁ s₁.can_steal _ _
            (or_else-Takes _ self s₁ _ _ (two_choices-Takes s₁ w₁) (λ s₂ w₂.
              scan-Takes p.max_vcores ((self + 1) % p.max_vcores) s₂
                (mod-lt (self + 1) (omega arith)) w₂))
            (nothing-Takes _ self s₁ w₁))
