-- ===== src/Barrier/Releasing.antt =====
-- src/common/barrier.c: the last thread to arrive sets the signals, and makes the blocked threads
-- runnable.
use upthread.Base.{
  ℕ, suc, ◌+◌, ◌≤◌, ◌<◌, ◌≡◌, refl, sym, ap, ◌∙◌, subst, inl, inr, Bool, true, false, ◌&&◌, not,
  Option, none, some, List, [], ◌∷◌, arith, ltb, leb, ◌==◌, if◌then◌else◌, bit, ltb→lt, Bool-cases,
  same, length, count, count-nil,
}
use upthread.Base.Sums.{update, total, none_below, total-lt, total-le-one, total_add, total_same}
use upthread.Barrier.Invariant.{
  Inv, odd, id_of, here, ahead, parked_pc, parked_in, Phase, gathering, signals_phase, role,
  role_at, PhaseOk,
}
use upthread.Barrier.Ops.{signal, unblock, eq_bool}
use upthread.Barrier.System.{resume, resume_all, release, idle, signalling, Thread, System, move}
use upthread.Barrier.Arriving.{here_small}
use upthread.Barrier.Opening.{phase_signals, opener_sum}

-- The thread that signal `k` frees.
abbrev mark : ℕ → ℕ → Thread → ℕ
mark k r t = bit (same (id_of t.pc) (some k) && not (t.passed == r))

mark_small : (k r : ℕ) (t : Thread) → mark k r t ≤ 1
mark_small k r t = ground arith

ahead-suc : (k r : ℕ) (t : Thread) → ahead (suc k) r t ≤ ahead k r t + mark k r t
ahead-suc k r t = ground arith

same_some : (o : Option ℕ) (k : ℕ) → same o (some k) ≡ true → o ≡ some k
same_some none k e = absurd (ground arith)
same_some (some x) k e = ground arith

module _ {n : ℕ} {ph : Phase} {s : System} (inv : Inv n ph s) (i : ℕ) (lt : i < n) where
  past :
      (j id : ℕ)
      → j < n
      → id_of (s.thread j).pc ≡ some id
      → ((s.thread j).passed == s.opened) ≡ false
      → suc (s.thread j).passed ≡ s.opened
  past j id h e old = ground (arith, inv.places j h)

  one_freed : (k : ℕ) → total (mark k s.opened) n s.thread ≤ 1
  one_freed k =
      total-le-one (mark k s.opened) (mark_small k s.opened) n s.thread (λ j l hj hl ej el.
        let aj = same_some (id_of (s.thread j).pc) k (ground arith) in
        let al = same_some (id_of (s.thread l).pc) k (ground arith) in
        inv.distinct j l k aj al (ground (arith, past j k hj aj, past l k hl al)))

  pub signals-Inv :
      (w : Bool) (k : ℕ)
      → (s.thread i).pc ≡ signalling w k
      → k < s.barrier.size
      → Inv n (signals_phase i (suc k)) (move i (signalling w (suc k)) (signal w k s.barrier) s)
  unfolding signal
  signals-Inv w k at more =
      let ph_is = phase_signals inv i lt k (ground arith) in
      let (ut, counted, freed, signals) = subst (λ f. PhaseOk n f s) ph_is inv.phase in
      let place = rw at at (inv.places i lt) in
      let q = signalling w (suc k) in
      let same_here = opener_sum inv i lt (here s.opened) q (ground arith) in
      let same_ahead = opener_sum inv i lt (ahead (suc k) s.opened) q (ground arith) in
      record {
        sized = inv.sized;
        places = λ j h. ground (arith, inv.places j h, inv.sized);
        beyond = λ j h. ground (arith, inv.beyond j h);
        roles = λ j.
            ground (arith, subst (λ f. role (s.thread j).pc ≡ role_at f j) ph_is (inv.roles j));
        waiting = inv.waiting;
        distinct = λ j l id ej el e. ground (arith, inv.distinct j l id);
        id_bound = λ j id ej e. rw same_here (ground (arith, inv.id_bound j id));
        queued = λ u b. ground (arith, inv.queued u b);
        queue_length =
            λ b. inv.queue_length b ∙ sym (opener_sum inv i lt (parked_in b) q (ground arith));
        room = inv.room;
        phase = (
          lt,
          counted ∙ sym same_here,
          omega (
            arith,
            freed,
            same_ahead,
            one_freed k,
            total_add (ahead (suc k) s.opened) (ahead k s.opened) (mark k s.opened)
                (ahead-suc k s.opened) n s.thread,
          ),
          λ j h. ground (arith, signals j h, place),
        );
      }

-- Who is in the queue goes on.
resume_all-at :
    (q : List ℕ) (f : ℕ → Thread) (j : ℕ)
    → resume_all q f j ≡ (if leb 1 (count j q) then resume (f j) else f j)
unfolding resume_all count
resume_all-at [] f j = refl
resume_all-at (t ∷ q) f j = ground (arith, resume_all-at q (update f t (resume (f t))) j)

abbrev woken : Bool → Thread → Thread
woken w t = if parked_pc w t.pc then resume t else t

module _ {n : ℕ} {ph : Phase} {s : System} (inv : Inv n ph s) (i : ℕ) (lt : i < n) (w : Bool)
    (k : ℕ) (at : (s.thread i).pc ≡ signalling w k) where
  woken-at : (j : ℕ) → resume_all (s.barrier.blocked w).queue s.thread j ≡ woken w (s.thread j)
  woken-at j = ground (arith, resume_all-at (s.barrier.blocked w).queue s.thread j, inv.queued j w)

  abbrev done : ℕ → Thread
  done = (release i w s).thread

  done-at :
      (j : ℕ)
      → done j ≡ (
          if j == i
          then record { pc = idle; passed = suc (s.thread i).passed }
          else woken w (s.thread j))
  unfolding unblock
  done-at j = ground (arith, woken-at j, woken-at i)

  done_sum :
      (v : Thread → ℕ)
      → ((t : Thread) → v (woken w t) ≡ v t)
      → v (record { pc = idle; passed = suc (s.thread i).passed }) ≡ v (s.thread i)
      → total v n done ≡ total v n s.thread
  done_sum v same_woken same_opener = total_same v v n done s.thread (λ j h.
      rw (done-at j) (elim (Bool-cases (j == i)) [
        | inl e ↦ rw e (same_opener ∙ ap (λ x. v (s.thread x)) (ground arith))
        | inr e ↦ rw e (same_woken (s.thread j))
      ]))

  done_ids :
      (j id : ℕ)
      → id_of (done j).pc ≡ some id
      → (id_of (s.thread j).pc ≡ some id) × ((done j).passed ≡ (s.thread j).passed)
  done_ids j id e = let e' = rw (done-at j) at e in rw (done-at j) (ground arith)

  done_length :
      (b : Bool) → length ((release i w s).barrier.blocked b).queue ≡ total (parked_in b) n done
  unfolding unblock
  done_length b = elim (Bool-cases (eq_bool b w)) [
    | inl e ↦ rw e (
        none_below (parked_in b) (λ t. ground arith) n done
          (λ j h. rw (done-at j) (ground (arith, e))))
    | inr e ↦
        rw e (inv.queue_length b ∙ sym (done_sum (parked_in b) (λ t. ground arith) (ground arith)))
  ]

  -- Nobody of the old round is left in a queue.
  done_parked :
      (suc (s.thread i).passed ≡ s.opened) × (w ≡ odd (s.thread i).passed) × (k ≤ n)
      → (j : ℕ) (b : Bool) → parked_pc b (done j).pc ≡ true
      → (done j).passed ≡ s.opened
  done_parked place j b e =
      let e' = rw (done-at j) at e in
      rw (done-at j) (elim (Bool-cases (ltb j n)) [
        | inl h ↦ ground (arith, inv.places j (ltb→lt j n h), place)
        | inr h ↦ absurd (ground (arith, inv.beyond j, lt))
      ])

  pub releases-Inv : s.barrier.size ≤ k → Inv n gathering (release i w s)
  unfolding unblock
  releases-Inv all =
      let ph_is = phase_signals inv i lt k (ground arith) in
      let (ut, counted, freed, signals) = subst (λ f. PhaseOk n f s) ph_is inv.phase in
      let place = rw at at (inv.places i lt) in
      let same_here = done_sum (here s.opened) (λ t. ground arith) (ground arith) in
      let few = total-lt (here s.opened) (here_small s.opened) n s.thread i lt (ground arith) in
      let roles =
        (λ (j : ℕ). subst (λ f. role (s.thread j).pc ≡ role_at f j) ph_is (inv.roles j)) in
      record {
        sized = inv.sized;
        places = λ j h. rw (done-at j) (ground (arith, inv.places j h, place));
        beyond = λ j h. rw (done-at j) (ground (arith, inv.beyond j h));
        roles = λ j. rw (done-at j) (ground (arith, roles j));
        waiting = inv.waiting;
        distinct = λ j l id ej el e.
            let (dj, pj) = done_ids j id ej in
            let (dl, pl) = done_ids l id el in inv.distinct j l id dj dl (sym pj ∙ e ∙ pl);
        id_bound = λ j id ej e.
            rw same_here (let (dj, pj) = done_ids j id ej in inv.id_bound j id dj (sym pj ∙ e));
        queued = λ u b. rw (done-at u) (ground (arith, inv.queued u b, count-nil u));
        queue_length = λ b. done_length b;
        room = λ b. ground (arith, inv.room b, inv.room w);
        phase = (
          counted ∙ sym same_here,
          omega (arith, counted, few),
          λ j h. ground (arith, signals j h, inv.sized, place),
          λ j b. done_parked place j b,
        );
      }
