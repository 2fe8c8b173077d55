-- ===== src/Pvcq/Inserting.antt =====
-- src/pvcq/upthread.c, lines 156-171: what it does to the queues that a thread enters one.
use upthread.Base.{
  ℕ, ◌+◌, ◌≤◌, ◌<◌, ◌≡◌, refl, ◌≢◌, Bool, true, false, [], arith, ◌==◌, bit, ==_refl, length,
  length-insert_tail, count, count-insert_tail, count-cons, pos,
}
use upthread.Base.Sums.{total-update}
use upthread.Tcb.{runnable}
use upthread.Pvcq.State.{VcMgmt, Pvcq, with_vc, to_state}
use upthread.Pvcq.Queues.{insert, thread_enqueue, is_created}
use upthread.Pvcq.Invariant.{IsValid, queued}

-- A thread in hand is put into a queue, and may run.
pub record Puts (m t : ℕ) (s s' : Pvcq) : Type 0 where
  pub valid : IsValid s'
  pub kept : (u : ℕ) → queued m u s' ≡ queued m u s + bit (u == t)
  pub same_tcb : (u : ℕ) → u ≢ t → s'.tcb u ≡ s.tcb u
  pub still : ((s'.tcb t).state ≡ runnable) × ((s'.tcb t).preferred_vcq ≡ (s.tcb t).preferred_vcq)
  pub same_slot : (s'.tcb t).joiner ≡ (s.tcb t).joiner
  pub same_steal : s'.can_steal ≡ s.can_steal
  pub same_nr : s'.nr_vcores ≡ s.nr_vcores
  pub same_next : s'.next_queue_id ≡ s.next_queue_id
  pub same_dead : s'.zombie_list ≡ s.zombie_list
  pub beyond : (x : ℕ) → m ≤ x → (s'.vc_mgmt x).tqueue ≡ (s.vc_mgmt x).tqueue

enqueue_runnable :
    (v t : ℕ) (athead : Bool) (s : Pvcq)
    → (s.tcb t).state ≡ runnable
    → (s.tcb t).preferred_vcq ≡ v
    → thread_enqueue [] t athead s ≡ (v, with_vc v (insert athead t) (to_state runnable t s))
unfolding thread_enqueue
enqueue_runnable v t athead s st pr =
    let e : is_created (s.tcb t).state ≡ false = ground arith in
    rw (e, thread_enqueue) (rw (==_refl t) (rw pr refl))

pub count-insert :
    (u t : ℕ) (athead : Bool) (vc : VcMgmt)
    → count u (insert athead t vc).tqueue ≡ count u vc.tqueue + bit (u == t)
count-insert u t true vc = omega (arith, count-cons u t vc.tqueue)
count-insert u t false vc = count-insert_tail u vc.tqueue t

insert-sized :
    (t : ℕ) (athead : Bool) (vc : VcMgmt)
    → vc.tqsize ≡ pos (length vc.tqueue)
    → (insert athead t vc).tqsize ≡ pos (length (insert athead t vc).tqueue)
insert-sized t true vc e = ground arith
insert-sized t false vc e = ground (arith, length-insert_tail vc.tqueue t)

pub inserted-Puts :
    (m v t : ℕ) (athead : Bool) (s : Pvcq)
    → v < m
    → IsValid s
    → Puts m t s (with_vc v (insert athead t) (to_state runnable t s))
inserted-Puts m v t athead s lt w = record {
  valid = record {
    sized = λ x. ground (arith, w.sized x, insert-sized t athead (s.vc_mgmt v) (w.sized v));
    queued_runnable =
        λ u x h. ground (arith, w.queued_runnable u x, count-insert u t athead (s.vc_mgmt v));
  };
  kept = λ u. ground (
    arith,
    count-insert u t athead (s.vc_mgmt v),
    total-update (λ (vc : VcMgmt). count u vc.tqueue) m s.vc_mgmt v (insert athead t (s.vc_mgmt v))
        lt,
  );
  same_tcb = λ u ne. ground arith;
  still = (ground arith, ground arith);
  same_slot = ground arith;
  same_steal = refl;
  same_nr = refl;
  same_next = refl;
  same_dead = refl;
  beyond = λ x le. ground arith;
}

-- A runnable thread goes to the queue of the vcore that it prefers.
pub enqueue-Puts :
    (m v t : ℕ) (athead : Bool) (s : Pvcq)
    → v < m
    → (s.tcb t).state ≡ runnable
    → (s.tcb t).preferred_vcq ≡ v
    → IsValid s
    → Puts m t s (thread_enqueue [] t athead s).1
enqueue-Puts m v t athead s lt st pr w =
    rw (enqueue_runnable v t athead s st pr) (inserted-Puts m v t athead s lt w)
