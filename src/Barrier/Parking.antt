-- ===== src/Barrier/Parking.antt =====
-- src/common/barrier.c: a thread whose signal has not come goes into a queue.
use upthread.Base.{
  ℕ, ◌<◌, ◌≡◌, sym, ◌∙◌, subst, inl, inr, Bool, true, some, arith, ltb, ◌==◌, Bool-cases, some_inj,
  length, insert_tail, length-insert_tail, count-insert_tail,
}
use upthread.Base.Sums.{update, total, total-update, total-update_same, total-lt}
use upthread.Barrier.System.{stalling, parked, Thread, System, move}
use upthread.Barrier.Invariant.{
  id_of, here, ahead, parked_in, Phase, gathering, resets_phase, toggles_phase, signals_phase,
  PhaseOk, Inv,
}
use upthread.Barrier.Ops.{Barrier, set_blocked, barrier_block, must_wait}

abbrev queued_at : ℕ → Bool → Barrier → Barrier
queued_at i w b =
    set_blocked w (record (b.blocked w) { queue = insert_tail (b.blocked w).queue i }) b

barrier_block-eq :
    (i : ℕ) (w : Bool) (b b' : Barrier) → barrier_block i w b ≡ some b' → queued_at i w b ≡ b'
unfolding barrier_block
barrier_block-eq i w b b' e =
    elim (Bool-cases (ltb (length (b.blocked w).queue) (b.blocked w).maxlen)) [
      | inl roomy ↦ some_inj (rw roomy at e)
      | inr full ↦ absurd (ground (arith, e))
    ]

module _ {n : ℕ} {ph : Phase} {s : System} (inv : Inv n ph s) (i : ℕ) (lt : i < n) (w : Bool)
    (id k : ℕ) (at : (s.thread i).pc ≡ stalling w id k) where
  sums :
      (v : Thread → ℕ)
      → v (record (s.thread i) { pc = parked w id k }) ≡ v (s.thread i)
      → total v n (update s.thread i (record (s.thread i) { pc = parked w id k }))
        ≡ total v n s.thread
  sums v e = total-update_same v n s.thread i _ lt (sym e)

  -- The array has room for each thread that comes to the queue.
  pub roomy : length (s.barrier.blocked w).queue < (s.barrier.blocked w).maxlen
  roomy =
      let few = total-lt (parked_in w) (λ t. ground arith) n s.thread i lt (ground arith) in
      omega (arith, few, inv.queue_length w, inv.room w)

  parks_phase :
      must_wait w id s.barrier ≡ true
      → (f : Phase) → PhaseOk n f s
      → PhaseOk n f (move i (parked w id k) (queued_at i w s.barrier) s)
  parks_phase must gathering (counted, few, signals, current) =
      let place = rw at at (inv.places i lt) in
      (
        counted ∙ sym (sums (here s.opened) (ground arith)),
        few,
        signals,
        λ j b e. elim (Bool-cases (j == i)) [
          | inl eq ↦ rw eq (ground (arith, place, signals id))
          | inr ne ↦ rw ne (current j b (rw ne at e))
        ],
      )
  parks_phase must (resets_phase u) (ut, full, signals) =
      (ut, sums (here s.opened) (ground arith) ∙ full, signals)
  parks_phase must (toggles_phase u) (ut, full, signals, none_here) =
      (ut, sums (here s.opened) (ground arith) ∙ full, signals, none_here)
  parks_phase must (signals_phase u l) (ut, counted, freed, signals) = (
    ut,
    counted ∙ sym (sums (here s.opened) (ground arith)),
    omega (arith, freed, sums (ahead l s.opened) (ground arith)),
    signals,
  )

  same_ids :
      (j x : ℕ)
      → id_of (update s.thread i (record (s.thread i) { pc = parked w id k }) j).pc ≡ some x
      → (id_of (s.thread j).pc ≡ some x)
        × ((update s.thread i (record (s.thread i) { pc = parked w id k }) j).passed
            ≡ (s.thread j).passed)
  same_ids j x e = ground arith

  parked-Inv :
      must_wait w id s.barrier ≡ true
      → Inv n ph (move i (parked w id k) (queued_at i w s.barrier) s)
  parked-Inv must = record {
    sized = inv.sized;
    places = λ j h. ground (arith, inv.places j h, inv.places i lt);
    beyond = λ j h. ground (arith, inv.beyond j h);
    roles = λ j. ground (arith, inv.roles j);
    waiting = inv.waiting;
    distinct = λ j l x ej el e.
        let (dj, pj) = same_ids j x ej in
        let (dl, pl) = same_ids l x el in inv.distinct j l x dj dl (sym pj ∙ e ∙ pl);
    id_bound = λ j x ej e.
        let (dj, pj) = same_ids j x ej in
        rw (sums (here s.opened) (ground arith)) (inv.id_bound j x dj (sym pj ∙ e));
    queued =
        λ u b. ground (arith, inv.queued u b, count-insert_tail u (s.barrier.blocked w).queue i);
    queue_length = λ b. ground (
      arith,
      inv.queue_length b,
      length-insert_tail (s.barrier.blocked w).queue i,
      total-update (parked_in b) n s.thread i (record (s.thread i) { pc = parked w id k }) lt,
    );
    room = λ b. ground (arith, inv.room b, inv.room w);
    phase = parks_phase must ph inv.phase;
  }

  pub parks-Inv :
      (b : Barrier)
      → must_wait w id s.barrier ≡ true
      → barrier_block i w s.barrier ≡ some b
      → Inv n ph (move i (parked w id k) b s)
  parks-Inv b must e =
      subst (λ x. Inv n ph (move i (parked w id k) x s)) (barrier_block-eq i w s.barrier b e)
        (parked-Inv must)
