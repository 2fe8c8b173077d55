-- ===== src/Pvcq/Placing.antt =====
-- src/pvcq/upthread.c, lines 105-113 and 288-317: the queue that a thread is put into.
use upthread.Base.{
  ℕ, ◌+◌, ◌<◌, ◌≡◌, refl, ◌≢◌, inl, inr, Bool, true, false, List, [], ◌∷◌, arith, ◌==◌,
  if◌then◌else◌, bit, ==_refl, Bool-cases, same, pos,
}
use upthread.Tcb.{runnable}
use upthread.Pvcq.State.{
  Pvcq, next_id, get_next_queue_id_basic, with_vc, to_state, vcore_request_specific, Call,
}
use upthread.Pvcq.Queues.{
  is_created, insert, thread_enqueue, Placement, at_head, at_tail, odd, placement, placed,
  pth_thread_runnable,
}
use upthread.Pvcq.Invariant.{IsValid, queued}
use upthread.Pvcq.Inserting.{inserted-Puts}

-- What the other vcores do to the counter keeps it a queue's number.
abbrev pub Bounded : ℕ → List (ℕ → ℕ) → Type 0
Bounded n [] = Unit {0}
Bounded n (f ∷ fs) = ((id : ℕ) → id < n → f id < n) × Bounded n fs

next_id-lt : (n id : ℕ) → id < n → next_id (pos n) id < n
next_id-lt n id h = ground arith

-- While the counter is below the number of queues, and the other vcores keep it there, the queue
-- that a new thread gets is below it too, and the counter stays there.
pub next_queue_id-lt :
    (n : ℕ) (rounds : List (ℕ → ℕ)) (s : Pvcq)
    → s.nr_vcores ≡ pos n
    → s.next_queue_id < n
    → Bounded n rounds
    → (let (id, s') = get_next_queue_id_basic rounds s in
        (id < n) × (s'.next_queue_id < n) × (s'.nr_vcores ≡ pos n))
unfolding get_next_queue_id_basic
next_queue_id-lt n [] s e h b = (h, ground (arith, next_id-lt n s.next_queue_id h), e)
next_queue_id-lt n (others ∷ rounds) s e h (b, bs) =
    elim (Bool-cases (others s.next_queue_id == s.next_queue_id)) [
      | inl same ↦
          rw (same, get_next_queue_id_basic) (h, ground (arith, next_id-lt n s.next_queue_id h), e)
      | inr other ↦
          rw (other, get_next_queue_id_basic)
            (next_queue_id-lt n rounds (record s { next_queue_id = others s.next_queue_id }) e
              (b s.next_queue_id h) bs)
    ]

enqueue_old :
    (rounds : List (ℕ → ℕ)) (t : ℕ) (athead : Bool) (s : Pvcq)
    → is_created (s.tcb t).state ≡ false
    → thread_enqueue rounds t athead s ≡ (
      (s.tcb t).preferred_vcq,
      with_vc (s.tcb t).preferred_vcq (insert athead t) (to_state runnable t s),
    )
unfolding thread_enqueue
enqueue_old rounds t athead s e = rw (e, thread_enqueue) (rw (==_refl t) refl)

-- STAILQ_INSERT_HEAD for what comes back from a system call.
abbrev pub to_head : Placement → Bool
to_head at_head = true
to_head _ = false

pub placed_old :
    (rounds : List (ℕ → ℕ)) (t : ℕ) (pl : Placement) (s : Pvcq)
    → pl ≢ odd
    → is_created (s.tcb t).state ≡ false
    → placed rounds t pl s ≡ (
      (s.tcb t).preferred_vcq,
      with_vc (s.tcb t).preferred_vcq (insert (to_head pl) t) (to_state runnable t s),
    )
placed_old rounds t at_head s ne e = enqueue_old rounds t true s e
placed_old rounds t at_tail s ne e = enqueue_old rounds t false s e
placed_old rounds t odd s ne e = absurd (ne refl)

-- What `pth_thread_runnable` does to a thread that has run before.
pub record Queues (m t : ℕ) (s s' : Pvcq) : Type 0 where
  pub valid : IsValid s'
  pub kept : (u : ℕ) → queued m u s' ≡ queued m u s + bit (u == t)
  pub may_run : (s'.tcb t).state ≡ runnable
  pub placed_in :
      (s'.vc_mgmt (s.tcb t).preferred_vcq).tqueue
      ≡ (insert (to_head (placement (s.tcb t).state)) t (s.vc_mgmt (s.tcb t).preferred_vcq)).tqueue

if-Queues :
    (m t : ℕ) (s : Pvcq) (b : Bool) (x y : Pvcq)
    → Queues m t s x
    → Queues m t s y
    → Queues m t s (if b then x else y)
if-Queues m t s true x y h k = h
if-Queues m t s false x y h k = k

inserted-Queues :
    (m t : ℕ) (s : Pvcq) (calls : List Call)
    → (s.tcb t).preferred_vcq < m
    → IsValid s
    → Queues m t s
        (record (with_vc
          (s.tcb t).preferred_vcq
          (insert (to_head (placement (s.tcb t).state)) t)
          (to_state runnable t s)) { calls = calls })
inserted-Queues m t s calls lt w =
    let q = inserted-Puts m _ t (to_head (placement (s.tcb t).state)) s lt w in
    record {
      valid = record {
        sized = λ v. q.valid.sized v;
        queued_runnable = λ u v h. q.valid.queued_runnable u v h;
      };
      kept = q.kept;
      may_run = q.still.0;
      placed_in = ground arith;
    }

-- In a valid state, a thread that blocked, paused or yielded becomes runnable: it stands once more
-- than before in the queues, in the one that it prefers, at the head if it comes back from a system
-- call and else at the tail; the state stays valid and every other thread stays as often queued.
pub runnable-Queues :
    (m : ℕ) (rounds : List (ℕ → ℕ)) (t : ℕ) (s : Pvcq)
    → (s.tcb t).preferred_vcq < m
    → placement (s.tcb t).state ≢ odd
    → is_created (s.tcb t).state ≡ false
    → IsValid s
    → Queues m t s (pth_thread_runnable rounds t s)
unfolding pth_thread_runnable
runnable-Queues m rounds t s lt known old w =
    rw (placed_old rounds t (placement (s.tcb t).state) s known old, pth_thread_runnable)
      (if-Queues m t s s.can_adjust_vcores _ _
        (inserted-Queues m t s (vcore_request_specific (s.tcb t).preferred_vcq ∷ s.calls) lt w)
        (inserted-Queues m t s s.calls lt w))
