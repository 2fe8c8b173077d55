-- ===== src/Pvcq/Invariant.antt =====
-- src/pvcq/upthread.c: the sizes of the queues, the states of the threads
-- in them, and how often each thread is queued.
use upthread.Base.{
  ℕ, ◌+◌, ◌≤◌, ◌<◌, ◌≡◌, refl, ap, ◌∙◌, ◌≢◌, ◌⊎◌, inl, inr, Option, none, some, List, [], ◌∷◌,
  arith, ◌==◌, bit, ==_refl, Bool-cases, length, count, count-cons, pos, decr, nonzero,
}
use upthread.Base.Sums.{total, total-update}
use upthread.Tcb.{Tcb, runnable}
use upthread.Pvcq.State.{VcMgmt, Pvcq}
use upthread.Pvcq.Queues.{tdequeue, tdequeue_from}

pub record IsValid (s : Pvcq) : Type 0 where
  pub sized : (v : ℕ) → (s.vc_mgmt v).tqsize ≡ pos (length (s.vc_mgmt v).tqueue)
  pub queued_runnable : (t v : ℕ) → 1 ≤ count t (s.vc_mgmt v).tqueue → (s.tcb t).state ≡ runnable

-- How often a thread stands in the queues of the first `m` vcores.
abbrev pub queued : ℕ → ℕ → Pvcq → ℕ
queued m t s = total (λ (vc : VcMgmt). count t vc.tqueue) m s.vc_mgmt

abbrev pub found : ℕ → Option ℕ → ℕ
found t none = 0
found t (some u) = bit (t == u)

-- A thread that `self` has dequeued.
abbrev pub IsTaken : ℕ → ℕ → Pvcq → Type 0
IsTaken self t s = ((s.tcb t).state ≡ runnable) × ((s.tcb t).preferred_vcq ≡ self)

-- A block that an operation of `self` may only have moved to the queue of `self`.
pub record SameBlock (self : ℕ) (b b' : Tcb) : Type 0 where
  pub state : b'.state ≡ b.state
  pub joiner : b'.joiner ≡ b.joiner
  pub preferred : (b'.preferred_vcq ≡ b.preferred_vcq) ⊎ (b'.preferred_vcq ≡ self)

pub SameBlock-refl : (self : ℕ) (b : Tcb) → SameBlock self b b
SameBlock-refl self b = record { state = refl; joiner = refl; preferred = inl refl }

pub SameBlock-trans :
    (self : ℕ) (a b c : Tcb) → SameBlock self a b → SameBlock self b c → SameBlock self a c
SameBlock-trans self a b c h k = record {
  state = k.state ∙ h.state;
  joiner = k.joiner ∙ h.joiner;
  preferred = ground (arith, h.preferred, k.preferred);
}

-- A dequeue by `self` gives up the thread that it returns, and loses or invents no other.
pub record Takes (m self : ℕ) (s : Pvcq) (r : Option ℕ × Pvcq) : Type 0 where
  pub valid : IsValid r.1
  pub kept : (t : ℕ) → queued m t r.1 + found t r.0 ≡ queued m t s
  pub taken : (t : ℕ) → r.0 ≡ some t → IsTaken self t r.1
  pub stays : (t : ℕ) → IsTaken self t s → IsTaken self t r.1
  pub same : (t : ℕ) → SameBlock self (s.tcb t) (r.1.tcb t)
  pub same_steal : r.1.can_steal ≡ s.can_steal
  pub same_nr : r.1.nr_vcores ≡ s.nr_vcores
  pub same_next : r.1.next_queue_id ≡ s.next_queue_id
  pub same_dead : r.1.zombie_list ≡ s.zombie_list
  pub beyond : (x : ℕ) → m ≤ x → (r.1.vc_mgmt x).tqueue ≡ (s.vc_mgmt x).tqueue

pub nothing-Takes : (m self : ℕ) (s : Pvcq) → IsValid s → Takes m self s (none, s)
nothing-Takes m self s w = record {
  valid = w;
  kept = λ t. omega arith;
  taken = λ t h. cc;
  stays = λ t h. h;
  same = λ t. SameBlock-refl self (s.tcb t);
  same_steal = refl;
  same_nr = refl;
  same_next = refl;
  same_dead = refl;
  beyond = λ x le. refl;
}

tdequeue_from-Takes :
    (m self v : ℕ) (q : List ℕ) (s : Pvcq)
    → v < m
    → (s.vc_mgmt v).tqueue ≡ q
    → IsValid s
    → Takes m self s (tdequeue_from self v q s)
tdequeue_from-Takes m self v [] s lt e w = record {
  valid = w;
  kept = λ t. omega arith;
  taken = λ t e. cc;
  stays = λ t h. ground arith;
  same = λ t. SameBlock-refl self (s.tcb t);
  same_steal = refl;
  same_nr = refl;
  same_next = refl;
  same_dead = refl;
  beyond = λ x le. refl;
}
tdequeue_from-Takes m self v (u ∷ rest) s lt e w = record {
  valid = record {
    sized = λ x. ground (arith, w.sized x, w.sized v);
    queued_runnable = λ t x h. ground (arith, w.queued_runnable t x, count-cons t u rest);
  };
  kept = λ t. ground (
    arith,
    count-cons t u rest,
    total-update (λ (vc : VcMgmt). count t vc.tqueue) m s.vc_mgmt v
        (record (s.vc_mgmt v) { tqueue = rest; tqsize = decr (s.vc_mgmt v).tqsize }) lt,
  );
  taken = λ t h. ground (arith, w.queued_runnable u v, count-cons u u rest, ==_refl u);
  stays = λ t h. ground arith;
  same = λ t. record { state = ground arith; joiner = ground arith; preferred = ground arith };
  same_steal = refl;
  same_nr = refl;
  same_next = refl;
  same_dead = refl;
  beyond = λ x le. ground arith;
}

pub tdequeue-Takes :
    (m self v : ℕ) (s : Pvcq) → v < m → IsValid s → Takes m self s (tdequeue self v s)
unfolding tdequeue
tdequeue-Takes m self v s lt w = elim (Bool-cases (nonzero (s.vc_mgmt v).tqsize)) [
  | inl e ↦ rw (e, tdequeue) (tdequeue_from-Takes m self v _ s lt refl w)
  | inr e ↦ rw (e, tdequeue) (nothing-Takes m self s w)
]

-- A dequeue of a queue that is not empty finds a thread.
pub tdequeue-some :
    (self v : ℕ) (s : Pvcq)
    → IsValid s
    → 1 ≤ length (s.vc_mgmt v).tqueue
    → (tdequeue self v s).0 ≢ none
unfolding tdequeue
tdequeue-some self v s w h = go (s.vc_mgmt v).tqueue refl
  where
    go : (q : List ℕ) → (s.vc_mgmt v).tqueue ≡ q → (tdequeue self v s).0 ≢ none
    go [] e = absurd (omega (arith, ap length e))
    go (u ∷ rest) e = ground (arith, w.sized v)
