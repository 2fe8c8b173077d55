-- ===== src/Pvcq/Moves.antt =====
-- src/pvcq/upthread.c: how the threads that stop, start and become runnable move in Pvcq/System.
use upthread.Base.{
  ℕ, ◌<◌, ◌≡◌, refl, sym, ap, ◌∙◌, subst, ◌≢◌, inl, inr, Option, none, some, List, arith, ◌==◌,
  ==_refl, Bool-cases, same, ℤ,
}
use upthread.Base.Sums.{update}
use upthread.Tcb.{Tcb, ThreadState, created, runnable, running}
use upthread.Pvcq.State.{Pvcq, to_state}
use upthread.Pvcq.Queues.{odd, placement, is_created, pth_thread_runnable}
use upthread.Pvcq.Entering.{Enters, IsBounded, IsCounter, old-Enters, new-Enters}
use upthread.Pvcq.Places.{Places, move-Places, enter-Places}
use upthread.Pvcq.Kept.{Kept, move-Kept, enter-Kept, stays}
use upthread.Pvcq.Slots.{Slots, IsLoose, loose, retag-Slots, same-Slots}

pub record Inv (m : ℕ) (b : Pvcq) (current : ℕ → Option ℕ) : Type 0 where
  pub places : Places m b current
  pub slots : Slots b.tcb
  pub kept : Kept m b current

-- A change of nothing that the invariant is about.
pub same-Inv :
    (m : ℕ) (b b' : Pvcq) (c : ℕ → Option ℕ)
    → Inv m b c
    → ((v : ℕ) → (b'.vc_mgmt v).tqueue ≡ (b.vc_mgmt v).tqueue)
    → ((v : ℕ) → (b'.vc_mgmt v).tqsize ≡ (b.vc_mgmt v).tqsize)
    → ((u : ℕ) → (b'.tcb u).state ≡ (b.tcb u).state)
    → ((u : ℕ) → (b'.tcb u).joiner ≡ (b.tcb u).joiner)
    → ((u : ℕ) → (b'.tcb u).preferred_vcq ≡ (b.tcb u).preferred_vcq)
    → b'.nr_vcores ≡ b.nr_vcores
    → b'.next_queue_id ≡ b.next_queue_id
    → Inv m b' c
same-Inv m b b' c h queue size kept slot pr nr next = record {
  places =
      move-Places m b b' c c h.places queue size (λ u e. kept u ∙ e)
        (λ u. subst (λ n. n < m) (sym (pr u)) (h.places.below u)) nr next
        (λ w u e. (e, kept u ∙ h.places.runs w u e));
  slots = same-Slots b.tcb b'.tcb h.slots kept slot;
  kept =
      move-Kept m b b' c c h.kept queue (λ u e. sym (kept u) ∙ e)
        (λ u e. (sym (kept u) ∙ e, λ v at. at));
}

-- Another number of queues for new threads.
pub count-Inv :
    (m : ℕ) (nr : ℤ) (n : ℕ) (b : Pvcq) (c : ℕ → Option ℕ)
    → Inv m b c
    → IsCounter m nr n
    → Inv m (record b { nr_vcores = nr; next_queue_id = n }) c
count-Inv m nr n b c h k = record {
  places = record {
    valid = record {
      sized = h.places.valid.sized;
      queued_runnable = h.places.valid.queued_runnable;
    };
    once = h.places.once;
    runs = h.places.runs;
    apart = h.places.apart;
    below = h.places.below;
    counter = k;
    beyond = h.places.beyond;
  };
  slots = h.slots;
  kept = record { ready = h.kept.ready; active = h.kept.active };
}

enter-Inv :
    (m t : ℕ) (b b' : Pvcq) (c : ℕ → Option ℕ)
    → Inv m b c
    → IsLoose b.tcb t
    → placement (b.tcb t).state ≢ odd
    → Enters m t b b'
    → Inv m b' c
enter-Inv m t b b' c h free known k = record {
  places =
      enter-Places m t b b' c h.places (λ e. known (ap placement e)) (λ e. known (ap placement e))
        k;
  slots =
      retag-Slots b.tcb b'.tcb t h.slots free (λ e. known (ap placement e))
        (λ u ne. ap (λ (x : Tcb). x.state) (k.same_tcb u ne))
        (λ u. elim (Bool-cases (u == t)) [
          | inl e ↦
              let e' : u ≡ t = ground arith in
              subst (λ x. (b'.tcb x).joiner ≡ (b.tcb x).joiner) (sym e') k.slot
          | inr e ↦ ap (λ (x : Tcb). x.joiner) (k.same_tcb u (ground arith))
        ]);
  kept = enter-Kept m t b b' c h.kept k;
}

pub runnable-Enters :
    (m : ℕ) (rounds : List (ℕ → ℕ)) (t : ℕ) (b : Pvcq) (c : ℕ → Option ℕ)
    → Places m b c
    → placement (b.tcb t).state ≢ odd
    → ((b.tcb t).state ≡ created → IsBounded rounds b)
    → Enters m t b (pth_thread_runnable rounds t b)
runnable-Enters m rounds t b c q known bound = elim (Bool-cases (is_created (b.tcb t).state)) [
  | inl new ↦
      let e : (b.tcb t).state ≡ created = ground arith in
      new-Enters m rounds t b e q.counter (bound e) q.valid
  | inr old ↦ old-Enters m rounds t b (q.below t) known old q.counter q.valid
]

-- A thread becomes runnable that blocked, paused, yielded or is new.
pub queue-Inv :
    (m : ℕ) (rounds : List (ℕ → ℕ)) (t : ℕ) (b : Pvcq) (c : ℕ → Option ℕ)
    → Inv m b c
    → IsLoose b.tcb t
    → placement (b.tcb t).state ≢ odd
    → ((b.tcb t).state ≡ created → IsBounded rounds b)
    → Inv m (pth_thread_runnable rounds t b) c
queue-Inv m rounds t b c h free known bound =
    enter-Inv m t b _ c h free known (runnable-Enters m rounds t b c h.places known bound)

-- Vcore `v` stops its thread, and the others run what they ran.
pub stops :
    (m v t w u : ℕ) (b : Pvcq) (c : ℕ → Option ℕ)
    → Places m b c
    → c v ≡ some t
    → update c v none w ≡ some u
    → (c w ≡ some u) × (u ≢ t)
stops m v t w u b c h at e = elim (Bool-cases (w == v)) [
  | inl same ↦ absurd (ground arith)
  | inr other ↦
      let k : c w ≡ some u = ground arith in
      (k, λ q. ground (arith, h.apart w v t (k ∙ ap some q) at))
]

-- The thread of vcore `v` stops, in state `st`.
pub stop-Inv :
    (m v t : ℕ) (st : ThreadState) (b : Pvcq) (c : ℕ → Option ℕ)
    → Inv m b c
    → c v ≡ some t
    → st ≢ runnable
    → st ≢ running
    → Inv m (to_state st t b) (update c v none)
      × IsLoose (to_state st t b).tcb t
      × (((to_state st t b).tcb t).state ≡ st)
stop-Inv m v t st b c h at nq nr =
    let ran = h.places.runs v t at in
    let free = loose b.tcb t h.slots (λ e. ground arith) in
    (
      record {
        places =
            move-Places m b (to_state st t b) c (update c v none) h.places (λ v. refl) (λ v. refl)
              (λ u e. ground arith) (λ u. ground (arith, h.places.below u)) refl refl
              (λ w u e.
                let (k, ne) = stops m v t w u b c h.places at e in
                (k, ground (arith, h.places.runs w u k)));
        slots =
            retag-Slots b.tcb (to_state st t b).tcb t h.slots free (λ e. ground arith)
              (λ u ne. ground arith) (λ u. ground arith);
        kept =
            move-Kept m b (to_state st t b) c (update c v none) h.kept (λ x. refl)
              (λ u e. ground (arith, nq))
              (λ u e. elim (Bool-cases (u == t)) [
                | inl q ↦ absurd (ground (arith, nr))
                | inr q ↦ (ground arith, λ w k. stays v t w u c at (ground arith) k)
              ]);
      },
      (λ u live e. free u (λ q. ground arith) (ground arith)),
      ground (arith, ==_refl t),
    )
