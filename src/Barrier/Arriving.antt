-- ===== src/Barrier/Arriving.antt =====
-- src/common/barrier.c: a thread arrives, and the last one resets the counter.
use upthread.Base.{
  ℕ, suc, ◌≤◌, ◌<◌, ◌≡◌, refl, sym, ◌∙◌, subst, inl, inr, Bool, true, false, some, arith, ◌==◌,
  Bool-cases,
}
use upthread.Base.Sums.{update, total, total-update, total-update_same, total-lt}
use upthread.Barrier.Ops.{arrive}
use upthread.Barrier.System.{Pc, arriving, Thread, System, move, after_arrive, spinning, resetting}
use upthread.Barrier.Invariant.{
  id_of, has_arrived, here, ahead, parked_pc, parked_in, PlaceOk, Phase, role, role_at, PhaseOk,
  Inv, gathering, resets_phase, odd, toggles_phase, signals_phase,
}

pub here_small : (r : ℕ) (t : Thread) → here r t ≤ 1
here_small r t = ground arith

pub ahead_small : (k r : ℕ) (t : Thread) → ahead k r t ≤ 1
ahead_small k r t = ground arith

module _ {n : ℕ} {ph : Phase} {s : System} (inv : Inv n ph s) (i : ℕ) (lt : i < n) (w : Bool)
    (at : (s.thread i).pc ≡ arriving w) where
  abbrev arrived_at : Pc → System
  arrived_at q = move i q (record s.barrier { arrived = suc s.barrier.arrived }) s

  one_more :
      (q : Pc)
      → has_arrived q ≡ true
      → total (here s.opened) n (arrived_at q).thread ≡ suc (total (here s.opened) n s.thread)
  one_more q arr =
      let place = rw at at (inv.places i lt) in
      ground (
        arith,
        place,
        total-update (here s.opened) n s.thread i (record (s.thread i) { pc = q }) lt,
      )

  arrived-Inv :
      (q : Pc) (ph' : Phase)
      → s.barrier.arrived ≡ total (here s.opened) n s.thread
      → has_arrived q ≡ true
      → ((b : Bool) → parked_pc b q ≡ false)
      → ((id : ℕ) → id_of q ≡ some id → id ≡ s.barrier.arrived)
      → PlaceOk n s.opened q (s.thread i).passed
      → ((j : ℕ) → role (update s.thread i (record (s.thread i) { pc = q }) j).pc ≡ role_at ph' j)
      → PhaseOk n ph' (arrived_at q)
      → Inv n ph' (arrived_at q)
  arrived-Inv q ph' counted arr run id_q place roles phase = record {
    sized = inv.sized;
    places = λ j h. ground (arith, inv.places j h);
    beyond = λ j h. ground (arith, inv.beyond j h);
    roles = roles;
    waiting = inv.waiting;
    distinct = λ j k id ej ek e. apart j k id ej ek e;
    id_bound = λ j id ej e. rw (one_more q arr) (ground (arith, inv.id_bound j id, id_q id));
    queued = λ u b. ground (arith, inv.queued u b, run b);
    queue_length = λ b.
        inv.queue_length b
        ∙ sym (total-update_same (parked_in b) n s.thread i _ lt (ground (arith, run b)));
    room = inv.room;
    phase = phase;
  }
    where
      of_round : (s.thread i).passed ≡ s.opened
      of_round = (rw at at (inv.places i lt)).0

      apart :
          (j k id : ℕ)
          → id_of (update s.thread i (record (s.thread i) { pc = q }) j).pc ≡ some id
          → id_of (update s.thread i (record (s.thread i) { pc = q }) k).pc ≡ some id
          → (update s.thread i (record (s.thread i) { pc = q }) j).passed
            ≡ (update s.thread i (record (s.thread i) { pc = q }) k).passed
          → j ≡ k
      apart j k id ej ek e = elim (Bool-cases (j == i)) [
        | inl ji ↦ elim (Bool-cases (k == i)) [
          | inl ki ↦ ground arith
          | inr ki ↦ absurd (ground (arith, of_round, id_q id, inv.id_bound k id))
        ]
        | inr ji ↦ elim (Bool-cases (k == i)) [
          | inl ki ↦ absurd (ground (arith, of_round, id_q id, inv.id_bound j id))
          | inr ki ↦ ground (arith, inv.distinct j k id)
        ]
      ]

  same_ahead :
      (k : ℕ) (q : Pc)
      → ahead k s.opened (record (s.thread i) { pc = q }) ≡ ahead k s.opened (s.thread i)
  same_ahead k q = let place = rw at at (inv.places i lt) in ground (arith, place)

  not_all : total (here s.opened) n s.thread < n
  not_all = total-lt (here s.opened) (here_small s.opened) n s.thread i lt (ground arith)

  joins-Inv :
      (ph' : Phase)
      → s.barrier.arrived ≡ total (here s.opened) n s.thread
      → ph ≡ ph'
      → suc s.barrier.arrived < n
      → PhaseOk n ph' (arrived_at (spinning w s.barrier.arrived 0))
      → Inv n ph' (arrived_at (spinning w s.barrier.arrived 0))
  joins-Inv ph' counted e few phase =
      let place = rw at at (inv.places i lt) in
      arrived-Inv (spinning w s.barrier.arrived 0) ph' counted refl (λ b. refl)
        (λ id h. ground arith) (inl place.0, place.1, few)
        (λ j. ground (arith, subst (λ f. role (s.thread j).pc ≡ role_at f j) e (inv.roles j))) phase

  last-Inv :
      s.barrier.arrived ≡ total (here s.opened) n s.thread
      → ph ≡ gathering
      → suc s.barrier.arrived ≡ n
      → ((j : ℕ) → j < n → s.barrier.signals j ≡ odd s.opened)
      → Inv n (resets_phase i) (arrived_at (resetting w))
  last-Inv counted e all signals =
      arrived-Inv (resetting w) (resets_phase i) counted refl (λ b. refl)
        (λ id h. absurd (ground arith)) (rw at at (inv.places i lt))
        (λ j. ground (arith, subst (λ f. role (s.thread j).pc ≡ role_at f j) e (inv.roles j)))
        (lt, omega (arith, one_more (resetting w) refl), signals)

  -- A thread arrives; the last of a round goes on to open the barrier.
  pub arrives-Inv :
      (ph' : Phase) × Inv n ph'
        (let (id, b) = arrive s.barrier in move i (after_arrive w s.barrier.size id) b s)
  unfolding arrive
  arrives-Inv = go ph refl inv.phase
    where
      result : System
      result = arrived_at (after_arrive w s.barrier.size s.barrier.arrived)

      go : (f : Phase) → ph ≡ f → PhaseOk n f s → (ph' : Phase) × Inv n ph' result
      go gathering e (counted, few, signals, current) =
          elim (Bool-cases (suc s.barrier.arrived == s.barrier.size)) [
            | inl last ↦
                (resets_phase i, rw last (last-Inv counted e (ground (arith, inv.sized)) signals))
            | inr more ↦ (
              gathering,
              rw more (
                  joins-Inv gathering counted e (ground (arith, inv.sized)) (
                    omega (arith, counted, one_more (spinning w s.barrier.arrived 0) refl),
                    ground (arith, inv.sized),
                    signals,
                    λ j b. ground (arith, current j b),
                  )),
            )
          ]
      go (resets_phase u) e (ut, full, signals) = absurd (omega (arith, not_all, full))
      go (toggles_phase u) e (ut, full, signals, none_here) = absurd (omega (arith, not_all, full))
      go (signals_phase u k) e (ut, counted, freed, signals) =
          let q = spinning w s.barrier.arrived 0 in
          let opener = subst (λ f. role (s.thread u).pc ≡ role_at f u) e (inv.roles u) in
          let few =
            total-lt (here s.opened) (here_small s.opened) n (arrived_at q).thread u ut
              (ground (arith, opener)) in
          let more : suc s.barrier.arrived < n = omega (arith, few, counted, one_more q refl) in
          let test : (suc s.barrier.arrived == s.barrier.size) ≡ false =
            ground (arith, inv.sized) in
          (
            signals_phase u k,
            rw test (
                joins-Inv (signals_phase u k) counted e more (
                  ut,
                  omega (arith, counted, one_more q refl),
                  omega (
                    arith,
                    freed,
                    total-update (ahead k s.opened) n s.thread i (record (s.thread i) { pc = q })
                        lt,
                    same_ahead k q,
                  ),
                  signals,
                )),
          )
