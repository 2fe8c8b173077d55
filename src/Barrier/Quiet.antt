-- ===== src/Barrier/Quiet.antt =====
-- src/common/barrier.c: the steps of one thread that leave the barrier as it is.
use upthread.Base.{
  ℕ, suc, ◌≤◌, ◌<◌, ◌≡◌, refl, sym, ◌∙◌, subst, inl, inr, Bool, false, some, arith, ltb, ◌==◌,
  Bool-cases, same,
}
use upthread.Base.Sums.{update, total, total-update_same, total_mono, at_most_all}
use upthread.Barrier.Ops.{must_wait}
use upthread.Barrier.System.{
  Thread, System, Pc, spinning, stalling, idle, move, arriving, after_stall, leave,
}
use upthread.Barrier.Invariant.{
  id_of, here, ahead, parked_pc, parked_in, PlaceOk, Phase, gathering, resets_phase, toggles_phase,
  signals_phase, member, role, PhaseOk, Inv, odd, has_arrived, may_leave,
}

abbrev pub with_thread : ℕ → Thread → System → System
with_thread i t s = record s { thread = update s.thread i t }

-- What a move from `t` to `t'` must keep to be seen by no other thread.
pub record IsQuiet (n : ℕ) (ph : Phase) (r : ℕ) (t t' : Thread) : Type 0 where
  was_member : role t.pc ≡ member
  is_member : role t'.pc ≡ member
  place : PlaceOk n r t'.pc t'.passed
  same_here : here r t' ≡ here r t
  same_ahead : (u k : ℕ) → ph ≡ signals_phase u k → ahead k r t' ≡ ahead k r t
  was_running : (b : Bool) → parked_pc b t.pc ≡ false
  is_running : (b : Bool) → parked_pc b t'.pc ≡ false
  same_id : (id : ℕ) → id_of t'.pc ≡ some id → (id_of t.pc ≡ some id) × (t'.passed ≡ t.passed)

module _ {n : ℕ} {ph : Phase} {s : System} (inv : Inv n ph s) (i : ℕ) (lt : i < n) (t : Thread)
    (q : IsQuiet n ph s.opened (s.thread i) t) where
  quiet_here : total (here s.opened) n (update s.thread i t) ≡ total (here s.opened) n s.thread
  quiet_here = total-update_same (here s.opened) n s.thread i t lt (sym q.same_here)

  quiet_ahead :
      (u k : ℕ)
      → ph ≡ signals_phase u k
      → total (ahead k s.opened) n (update s.thread i t) ≡ total (ahead k s.opened) n s.thread
  quiet_ahead u k e =
      total-update_same (ahead k s.opened) n s.thread i t lt (sym (q.same_ahead u k e))

  quiet_phase : (f : Phase) → ph ≡ f → PhaseOk n f s → PhaseOk n f (with_thread i t s)
  quiet_phase gathering e (counted, few, signals, current) = (
    omega (arith, counted, quiet_here),
    few,
    signals,
    λ j b. ground (arith, current j b, q.is_running b),
  )
  quiet_phase (resets_phase u) e (ut, full, signals) =
      (ut, omega (arith, full, quiet_here), signals)
  quiet_phase (toggles_phase u) e (ut, full, signals, none_here) =
      (ut, omega (arith, full, quiet_here), signals, none_here)
  quiet_phase (signals_phase u k) e (ut, counted, freed, signals) =
      (ut, omega (arith, counted, quiet_here), omega (arith, freed, quiet_ahead u k e), signals)

  same_ids :
      (j id : ℕ)
      → id_of (update s.thread i t j).pc ≡ some id
      → (id_of (s.thread j).pc ≡ some id) × ((update s.thread i t j).passed ≡ (s.thread j).passed)
  same_ids j id e = elim (Bool-cases (j == i)) [
    | inl eq ↦ ground (arith, q.same_id id)
    | inr ne ↦ ground arith
  ]

  pub quiet-Inv : Inv n ph (with_thread i t s)
  quiet-Inv = record {
    sized = inv.sized;
    places = λ j h. ground (arith, inv.places j h, q.place);
    beyond = λ j h. ground (arith, inv.beyond j h);
    roles = λ j. ground (arith, inv.roles j, q.was_member, q.is_member);
    waiting = inv.waiting;
    distinct = λ j k id ej ek e.
        let (dj, pj) = same_ids j id ej in
        let (dk, pk) = same_ids k id ek in inv.distinct j k id dj dk (sym pj ∙ e ∙ pk);
    id_bound = λ j id ej e.
        let (dj, pj) = same_ids j id ej in rw quiet_here (inv.id_bound j id dj (sym pj ∙ e));
    queued = λ u b. ground (arith, inv.queued u b, q.was_running b, q.is_running b);
    queue_length = λ b.
        inv.queue_length b
        ∙ sym (
            total-update_same (parked_in b) n s.thread i t lt
              (ground (arith, q.was_running b, q.is_running b)));
    room = inv.room;
    phase = quiet_phase ph refl inv.phase;
  }

-- A thread of this round must wait.
pub current_waits :
    {n : ℕ} {ph : Phase} {s : System}
    → Inv n ph s
    → (i id : ℕ) → id_of (s.thread i).pc ≡ some id
    → (s.thread i).passed ≡ s.opened
    → s.barrier.signals id ≡ odd s.opened
current_waits {n} {ph} {s} inv i id at cur = go ph inv.phase
  where
    small : (t : Thread) → here s.opened t ≤ 1
    small t = ground arith

    reached : total (here s.opened) n s.thread ≤ n
    reached = at_most_all (here s.opened) small n s.thread

    go : (f : Phase) → PhaseOk n f s → s.barrier.signals id ≡ odd s.opened
    go gathering (counted, few, signals, current) =
        signals id (omega (arith, inv.id_bound i id at cur, reached))
    go (resets_phase u) (ut, full, signals) =
        signals id (omega (arith, inv.id_bound i id at cur, reached))
    go (toggles_phase u) (ut, full, signals, none_here) =
        signals id (omega (arith, inv.id_bound i id at cur, reached))
    go (signals_phase u k) (ut, counted, freed, signals) =
        let most = total_mono (here s.opened) (ahead k s.opened) (λ t. ground arith) n s.thread in
        ground (arith, signals id, inv.id_bound i id at cur, reached)

module _ {n : ℕ} {ph : Phase} {s : System} (inv : Inv n ph s) (i : ℕ) (lt : i < n) where
  pub enter-Inv : (s.thread i).pc ≡ idle → Inv n ph (move i (arriving s.barrier.wait) s.barrier s)
  enter-Inv at = quiet-Inv inv i lt _ (record {
    was_member = ground arith;
    is_member = refl;
    place = ground (arith, inv.places i lt, inv.waiting);
    same_here = ground arith;
    same_ahead = λ u k e. ground arith;
    was_running = λ b. ground arith;
    is_running = λ b. refl;
    same_id = λ id e. ground arith;
  })

  -- In the loop, and with the same `wait` and `id` again.
  loops-Inv :
      (p q : Pc) (w : Bool) (id : ℕ)
      → (s.thread i).pc ≡ p
      → ((r x : ℕ) → PlaceOk n r p x → PlaceOk n r q x)
      → (role p ≡ member) × (role q ≡ member)
      → has_arrived p ≡ has_arrived q
      → ((k : ℕ) → may_leave k p ≡ may_leave k q)
      → ((b : Bool) → (parked_pc b p ≡ false) × (parked_pc b q ≡ false))
      → id_of p ≡ id_of q
      → Inv n ph (move i q s.barrier s)
  loops-Inv p q w id at place roles arrived leave run same = quiet-Inv inv i lt _ (record {
    was_member = ground (arith, roles);
    is_member = roles.1;
    place = place s.opened _ (rw at at (inv.places i lt));
    same_here = rw (at, arrived) refl;
    same_ahead = λ u k e. rw (at, leave k) refl;
    was_running = λ b. ground (arith, run b);
    is_running = λ b. (run b).1;
    same_id = λ x e. (ground arith, refl);
  })

  pub spins-Inv :
      (w : Bool) (id k : ℕ)
      → (s.thread i).pc ≡ spinning w id k
      → Inv n ph (move i (after_stall w id (suc k)) s.barrier s)
  spins-Inv w id k at = elim (Bool-cases (ltb (suc k) 1000)) [
    | inl e ↦ rw e (
        loops-Inv (spinning w id k) (spinning w id (suc k)) w id at (λ r x h. h) (refl, refl) refl
          (λ k. refl) (λ b. (refl, refl)) refl)
    | inr e ↦ rw e (
        loops-Inv (spinning w id k) (stalling w id (suc k)) w id at (λ r x h. h) (refl, refl) refl
          (λ k. refl) (λ b. (refl, refl)) refl)
  ]

  pub goes_on-Inv :
      (w : Bool) (id k : ℕ)
      → (s.thread i).pc ≡ stalling w id k
      → Inv n ph (move i (spinning w id k) s.barrier s)
  goes_on-Inv w id k at =
      loops-Inv (stalling w id k) (spinning w id k) w id at (λ r x h. h) (refl, refl) refl
        (λ k. refl) (λ b. (refl, refl)) refl

  -- Who finds its signal changed is of the round before.
  released_old :
      (w : Bool) (id k : ℕ)
      → (s.thread i).pc ≡ spinning w id k
      → must_wait w id s.barrier ≡ false
      → suc (s.thread i).passed ≡ s.opened
  released_old w id k at changed =
      let place = rw at at (inv.places i lt) in
      let waits = current_waits inv i id (ground arith) in ground (arith, place, waits)

  pub leaves-Inv :
      (w : Bool) (id k : ℕ)
      → (s.thread i).pc ≡ spinning w id k
      → must_wait w id s.barrier ≡ false
      → Inv n ph (leave i s)
  leaves-Inv w id k at changed =
      let old = released_old w id k at changed in
      let place = rw at at (inv.places i lt) in
      quiet-Inv inv i lt _ (record {
        was_member = ground arith;
        is_member = refl;
        place = old;
        same_here = ground (arith, old);
        same_ahead = λ u k e.
            let (ut, counted, freed, signals) = subst (λ f. PhaseOk n f s) e inv.phase in
            ground (arith, place, old, signals id);
        was_running = λ b. ground arith;
        is_running = λ b. refl;
        same_id = λ id e. ground arith;
      })
