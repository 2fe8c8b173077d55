-- ===== src/Pvcq/Entering.antt =====
-- src/pvcq/upthread.c, lines 105-113 and 288-317: what becomes of a thread, new or not, that
-- `pth_thread_runnable` puts into a queue.
use upthread.Base.{
  ℕ, ◌+◌, ◌≤◌, ◌<◌, ◌≡◌, refl, ap, ◌∙◌, subst, ◌≢◌, inl, inr, Bool, true, false, List, [], ◌∷◌,
  arith, ◌==◌, if◌then◌else◌, bit, ==_refl, Bool-cases, same, ℤ, pos,
}
use upthread.Tcb.{Tcb, created, runnable, modify, set_state}
use upthread.Pvcq.State.{
  Pvcq, next_id, get_next_queue_id_basic, with_vc, to_state, vcore_request_specific, Call,
}
use upthread.Pvcq.Queues.{thread_enqueue, is_created, insert, odd, placement, pth_thread_runnable}
use upthread.Pvcq.Invariant.{IsValid, queued}
use upthread.Pvcq.Inserting.{inserted-Puts, count-insert}
use upthread.Pvcq.Placing.{Bounded, next_queue_id-lt, to_head, placed_old}

-- The counter of the queues for new threads is the number of one of the `nr_vcores` queues, which are
-- some of the `m` that there are.
abbrev pub IsCounter : ℕ → ℤ → ℕ → Type 0
IsCounter m nr next = (k : ℕ) × (nr ≡ pos k) × (next < k) × (k ≤ m)

-- What the other vcores do to the counter during a call keeps it a queue's number.
abbrev pub IsBounded : List (ℕ → ℕ) → Pvcq → Type 0
IsBounded rounds s = (k : ℕ) → s.nr_vcores ≡ pos k → Bounded k rounds

-- One more thread stands in a queue.

pub record Enters (m t : ℕ) (s s' : Pvcq) : Type 0 where
  pub valid : IsValid s'
  pub kept : (u : ℕ) → queued m u s' ≡ queued m u s + bit (u == t)
  pub may_run : (s'.tcb t).state ≡ runnable
  pub slot : (s'.tcb t).joiner ≡ (s.tcb t).joiner
  pub below : (s'.tcb t).preferred_vcq < m
  pub same_tcb : (u : ℕ) → u ≢ t → s'.tcb u ≡ s.tcb u
  pub counter : IsCounter m s'.nr_vcores s'.next_queue_id
  pub dead : s'.zombie_list ≡ s.zombie_list
  pub beyond : (x : ℕ) → m ≤ x → (s'.vc_mgmt x).tqueue ≡ (s.vc_mgmt x).tqueue

if-Enters :
    (m t : ℕ) (s : Pvcq) (b : Bool) (x y : Pvcq)
    → Enters m t s x
    → Enters m t s y
    → Enters m t s (if b then x else y)
if-Enters m t s true x y h k = h
if-Enters m t s false x y h k = k

-- A state in which `t` stands in the queue of `v` besides.
inserted-Enters :
    (m v t : ℕ) (athead : Bool) (calls : List Call) (n : ℕ) (tcb : ℕ → Tcb) (s : Pvcq)
    → v < m
    → IsValid s
    → IsCounter m s.nr_vcores n
    → (tcb t).state ≡ runnable
    → (tcb t).joiner ≡ (s.tcb t).joiner
    → (tcb t).preferred_vcq ≡ v
    → ((u : ℕ) → u ≢ t → tcb u ≡ s.tcb u)
    → Enters m t s
        (record (with_vc v (insert athead t) s) { calls = calls; tcb = tcb; next_queue_id = n })
inserted-Enters m v t athead calls n tcb s lt w counter st slot pr same =
    let q = inserted-Puts m v t athead s lt w in
    record {
      valid = record {
        sized = λ x. q.valid.sized x;
        queued_runnable = λ u x h. elim (Bool-cases (u == t)) [
          | inl e ↦ ground (arith, st)
          | inr e ↦
              ap (λ (b : Tcb). b.state) (same u (ground arith))
              ∙ w.queued_runnable u x (ground (arith, count-insert u t athead (s.vc_mgmt v)))
        ];
      };
      kept = q.kept;
      may_run = st;
      slot = slot;
      below = ground (arith, pr);
      same_tcb = same;
      counter = counter;
      dead = refl;
      beyond = λ x le. ground arith;
    }

-- The choice of a queue changes nothing but the counter.
next_queue_id-same :
    (rounds : List (ℕ → ℕ)) (s : Pvcq)
    → (n : ℕ) × ((get_next_queue_id_basic rounds s).1 ≡ record s { next_queue_id = n })
unfolding get_next_queue_id_basic
next_queue_id-same [] s = (next_id s.nr_vcores s.next_queue_id, refl)
next_queue_id-same (others ∷ rounds) s =
    elim (Bool-cases (others s.next_queue_id == s.next_queue_id)) [
      | inl e ↦ (next_id s.nr_vcores s.next_queue_id, rw (e, get_next_queue_id_basic) refl)
      | inr e ↦
          let (n, k) =
            next_queue_id-same rounds (record s { next_queue_id = others s.next_queue_id }) in
          (n, rw (e, get_next_queue_id_basic) k)
    ]

-- A thread that has run before, and may run again.
pub old-Enters :
    (m : ℕ) (rounds : List (ℕ → ℕ)) (t : ℕ) (s : Pvcq)
    → (s.tcb t).preferred_vcq < m
    → placement (s.tcb t).state ≢ odd
    → is_created (s.tcb t).state ≡ false
    → IsCounter m s.nr_vcores s.next_queue_id
    → IsValid s
    → Enters m t s (pth_thread_runnable rounds t s)
unfolding pth_thread_runnable
old-Enters m rounds t s lt known old counter w =
    let v = (s.tcb t).preferred_vcq in
    let tcb = (to_state runnable t s).tcb in
    let h : (calls : List Call)
        → Enters m t s (record (with_vc v (insert (to_head (placement (s.tcb t).state)) t) s) {
          calls = calls;
          tcb = tcb;
          next_queue_id = s.next_queue_id;
        }) =
      λ calls.
        inserted-Enters m v t (to_head (placement (s.tcb t).state)) calls s.next_queue_id tcb s lt w
          counter (ground (arith, ==_refl t)) (ground (arith, ==_refl t))
          (ground (arith, ==_refl t)) (λ u ne. ground arith) in
    rw (placed_old rounds t (placement (s.tcb t).state) s known old, pth_thread_runnable)
      (if-Enters m t s s.can_adjust_vcores _ _ (h (vcore_request_specific v ∷ s.calls)) (h s.calls))

-- The block of a new thread after `__pth_thread_enqueue`.
abbrev preferring : ℕ → ℕ → (ℕ → Tcb) → ℕ → Tcb
preferring id t tcb =
    modify (modify tcb t (set_state runnable)) t (λ b. record b { preferred_vcq = id })

enqueue_new :
    (rounds : List (ℕ → ℕ)) (t n : ℕ) (s : Pvcq)
    → is_created (s.tcb t).state ≡ true
    → (get_next_queue_id_basic rounds (to_state runnable t s)).1
      ≡ record (to_state runnable t s) { next_queue_id = n }
    → (let id = (get_next_queue_id_basic rounds (to_state runnable t s)).0 in
        thread_enqueue rounds t false s ≡ (
          id,
          record (with_vc id (insert false t) s) { tcb = preferring id t s.tcb; next_queue_id = n },
        ))
unfolding thread_enqueue
enqueue_new rounds t n s new k = rw (new, thread_enqueue) (rw k (rw (==_refl t) refl))

-- A new thread.
pub new-Enters :
    (m : ℕ) (rounds : List (ℕ → ℕ)) (t : ℕ) (s : Pvcq)
    → (s.tcb t).state ≡ created
    → IsCounter m s.nr_vcores s.next_queue_id
    → IsBounded rounds s
    → IsValid s
    → Enters m t s (pth_thread_runnable rounds t s)
unfolding pth_thread_runnable
new-Enters m rounds t s st (top, nr, counter, fits) bound w =
    let s₁ = to_state runnable t s in
    let id = (get_next_queue_id_basic rounds s₁).0 in
    let (n, k) = next_queue_id-same rounds s₁ in
    let (lt, low, _) = next_queue_id-lt top rounds s₁ nr counter (bound top nr) in
    let low' : n < top = subst (λ (x : Pvcq). x.next_queue_id < top) k low in
    let new : is_created (s.tcb t).state ≡ true = ground arith in
    let h : (calls : List Call)
        → Enters m t s (record (with_vc id (insert false t) s) {
          calls = calls;
          tcb = preferring id t s.tcb;
          next_queue_id = n;
        }) =
      λ calls.
        inserted-Enters m id t false calls n (preferring id t s.tcb) s (omega (arith, lt, fits)) w
          (top, nr, low', fits) (ground (arith, ==_refl t)) (ground (arith, ==_refl t))
          (ground (arith, ==_refl t)) (λ u ne. ground arith) in
    rw (st, pth_thread_runnable)
      (rw (enqueue_new rounds t n s new k) (
        if-Enters m t s s.can_adjust_vcores _ _ (h (vcore_request_specific id ∷ s.calls))
          (h s.calls)))
