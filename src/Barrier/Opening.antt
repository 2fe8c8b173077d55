-- ===== src/Barrier/Opening.antt =====
-- src/common/barrier.c: the last thread to arrive resets the counter, toggles `wait`, and sets the
-- signals.
use upthread.Base.{
  ℕ, suc, ◌<◌, ◌≡◌, refl, sym, ◌∙◌, subst, inl, inr, Bool, true, arith, ltb, ◌==◌, ltb→lt,
  Bool-cases,
}
use upthread.Base.Sums.{update, total, total-update_same, none_below, total-lt}
use upthread.Barrier.Ops.{reset_arrived, toggle_wait}
use upthread.Barrier.Arriving.{here_small, ahead_small}
use upthread.Barrier.System.{System, Pc, resetting, toggling, signalling, Thread, move}
use upthread.Barrier.Invariant.{
  Phase, gathering, resets_phase, toggles_phase, signals_phase, resetter, toggler, signaller, role,
  role_at, Inv, has_arrived, here, ahead, parked_in, PhaseOk,
}

module _ {n : ℕ} {ph : Phase} {s : System} (inv : Inv n ph s) (i : ℕ) (lt : i < n) where
  role_in : (f : Phase) → ph ≡ f → role (s.thread i).pc ≡ role_at f i
  role_in f e = subst (λ f. role (s.thread i).pc ≡ role_at f i) e (inv.roles i)

  -- The phase is that of its last thread.
  phase_resets : role (s.thread i).pc ≡ resetter → ph ≡ resets_phase i
  phase_resets e = go ph refl
    where
      go : (f : Phase) → ph ≡ f → ph ≡ resets_phase i
      go gathering h = absurd (ground (arith, role_in gathering h))
      go (resets_phase u) h = ground (arith, role_in (resets_phase u) h)
      go (toggles_phase u) h = absurd (ground (arith, role_in (toggles_phase u) h))
      go (signals_phase u k) h = absurd (ground (arith, role_in (signals_phase u k) h))

  phase_toggles : role (s.thread i).pc ≡ toggler → ph ≡ toggles_phase i
  phase_toggles e = go ph refl
    where
      go : (f : Phase) → ph ≡ f → ph ≡ toggles_phase i
      go gathering h = absurd (ground (arith, role_in gathering h))
      go (resets_phase u) h = absurd (ground (arith, role_in (resets_phase u) h))
      go (toggles_phase u) h = ground (arith, role_in (toggles_phase u) h)
      go (signals_phase u k) h = absurd (ground (arith, role_in (signals_phase u k) h))

  pub phase_signals : (k : ℕ) → role (s.thread i).pc ≡ signaller k → ph ≡ signals_phase i k
  phase_signals k e = go ph refl
    where
      go : (f : Phase) → ph ≡ f → ph ≡ signals_phase i k
      go gathering h = absurd (ground (arith, role_in gathering h))
      go (resets_phase u) h = absurd (ground (arith, role_in (resets_phase u) h))
      go (toggles_phase u) h = absurd (ground (arith, role_in (toggles_phase u) h))
      go (signals_phase u l) h = ground (arith, role_in (signals_phase u l) h)

  -- The thread stays the last one, and no other moves.
  pub opener_sum :
      (v : Thread → ℕ) (q : Pc)
      → v (record (s.thread i) { pc = q }) ≡ v (s.thread i)
      → total v n (update s.thread i (record (s.thread i) { pc = q })) ≡ total v n s.thread
  opener_sum v q e = total-update_same v n s.thread i _ lt (sym e)

  pub resets-Inv :
      (w : Bool)
      → (s.thread i).pc ≡ resetting w
      → Inv n (toggles_phase i) (move i (toggling w) (reset_arrived s.barrier) s)
  unfolding reset_arrived
  resets-Inv w at =
      let ph_is = phase_resets (ground arith) in
      let (ut, full, signals) = subst (λ f. PhaseOk n f s) ph_is inv.phase in
      let same = opener_sum (here s.opened) (toggling w) (ground arith) in
      record {
        sized = inv.sized;
        places = λ j h. ground (arith, inv.places j h);
        beyond = λ j h. ground (arith, inv.beyond j h);
        roles = λ j.
            ground (arith, subst (λ f. role (s.thread j).pc ≡ role_at f j) ph_is (inv.roles j));
        waiting = inv.waiting;
        distinct = λ j k id ej ek e. ground (arith, inv.distinct j k id);
        id_bound = λ j id ej e. rw same (ground (arith, inv.id_bound j id));
        queued = λ u b. ground (arith, inv.queued u b);
        queue_length =
            λ b. inv.queue_length b ∙ sym (opener_sum (parked_in b) (toggling w) (ground arith));
        room = inv.room;
        phase = (lt, same ∙ full, signals, refl);
      }

  all_here :
      total (here s.opened) n s.thread ≡ n
      → (j : ℕ) → j < n
      → (has_arrived (s.thread j).pc ≡ true) × ((s.thread j).passed ≡ s.opened)
  all_here full j h = elim (Bool-cases (0 == here s.opened (s.thread j))) [
    | inl e ↦ absurd (
        omega (
          arith,
          full,
          total-lt (here s.opened) (here_small s.opened) n s.thread j h (ground arith),
        ))
    | inr e ↦ ground arith
  ]

  pub toggles-Inv :
      (w : Bool)
      → (s.thread i).pc ≡ toggling w
      → Inv n
          (signals_phase i 0)
          (record (move i (signalling w 0) (toggle_wait s.barrier) s) { opened = suc s.opened })
  unfolding toggle_wait
  toggles-Inv w at =
      let ph_is = phase_toggles (ground arith) in
      let (ut, full, signals, none_here) = subst (λ f. PhaseOk n f s) ph_is inv.phase in
      let f' = update s.thread i (record (s.thread i) { pc = signalling w 0 }) in
      let roles =
        (λ (j : ℕ). subst (λ f. role (s.thread j).pc ≡ role_at f j) ph_is (inv.roles j)) in
      record {
        sized = inv.sized;
        places = λ j h. ground (arith, inv.places j h, all_here full j h, roles j);
        beyond = λ j h. ground (arith, inv.beyond j h);
        roles = λ j. ground (arith, roles j);
        waiting = ground (arith, inv.waiting);
        distinct = λ j k id ej ek e. ground (arith, inv.distinct j k id);
        id_bound = λ j id ej e. absurd (elim (Bool-cases (ltb j n)) [
          | inl b ↦ ground (arith, all_here full j (ltb→lt j n b))
          | inr b ↦ ground (arith, inv.beyond j)
        ]);
        queued = λ u b. ground (arith, inv.queued u b);
        queue_length = λ b.
            inv.queue_length b ∙ sym (opener_sum (parked_in b) (signalling w 0) (ground arith));
        room = inv.room;
        phase = (
          lt,
          none_here
              ∙ none_below (here (suc s.opened)) (here_small _) n f'
                  (λ j h. ground (arith, all_here full j h)),
          omega (
            arith,
            none_below (ahead 0 (suc s.opened)) (ahead_small _ _) n f'
                (λ j h. ground (arith, all_here full j h, roles j)),
          ),
          λ j h. ground (arith, signals j h),
        );
      }
