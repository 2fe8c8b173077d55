-- ===== src/Gq/Fairness.antt =====
-- src/gq/upthread.c: the order in which threads leave the ready queue while others run.
use mathlib.Core.List.{append-nil, append_assoc}
use upthread.Base.{
  bind-eq-some, some_inj, subst, assert, ◌≤◌, ℕ, suc, ◌+◌, ◌≡◌, refl, sym, ap, ◌∙◌, inl, inr, Bool,
  Option, some, none, arith, List, [], ◌∷◌, ◌++◌, length, Bool-cases,
}
use upthread.Tcb.{exiting}
use upthread.Gq.State.{with_tcb, free, Gq, Platform, to_state, call, uthread_cleanup}
use upthread.Gq.Schedule.{
  take_ready, pth_thread_runnable, generic_yield, pth_thread_has_blocked, pth_blockon_syscall,
}
use upthread.Gq.Threads.{
  pth_thread_paused, yield_cb, join_cb, join_wake, exit_cb, exit_release, exit_wake, free_stack,
  restart_thread,
}
use upthread.Gq.Invariant.{take_ready_cons}

-- What is ready stays so, in its order, and others come behind.
abbrev pub Extends : Gq → Gq → Type 0
Extends s s' = (xs : List ℕ) × (s'.ready_queue ≡ s.ready_queue ++ xs)

same-Extends : (s s' : Gq) → s'.ready_queue ≡ s.ready_queue → Extends s s'
same-Extends s s' e = ([], e ∙ sym (append-nil s.ready_queue))

runnable-Extends :
    (t : ℕ) (s s' : Gq) → s'.ready_queue ≡ s.ready_queue → Extends s (pth_thread_runnable t s')
unfolding pth_thread_runnable
runnable-Extends t s s' e = (t ∷ [], ground arith)

generic_yield-ready :
    (t : ℕ) (s s' : Gq) → generic_yield t s ≡ some s' → s'.ready_queue ≡ s.ready_queue
unfolding generic_yield
generic_yield-ready t s s' e = ground arith

-- A dispatch takes the first thread of the queue.
dispatch-front :
    (d t : ℕ) (u v : Gq) (left more : List ℕ)
    → u.ready_queue ≡ left ++ t ∷ more
    → 1 ≤ length left
    → take_ready u ≡ (some d, v)
    → (left' : List ℕ) × (v.ready_queue ≡ left' ++ t ∷ more) × (length left ≡ length left' + 1)
dispatch-front d t u v [] more q h taken = absurd (omega arith)
dispatch-front d t u v (x ∷ left) more q h taken =
    (left, ground (arith, take_ready_cons x (left ++ t ∷ more) u q), omega arith)

dispatch-first :
    (d t : ℕ) (u v : Gq) (left more : List ℕ)
    → u.ready_queue ≡ left ++ t ∷ more
    → length left ≡ 0
    → take_ready u ≡ (some d, v)
    → d ≡ t
dispatch-first d t u v [] more q h taken = ground (arith, take_ready_cons t more u q)
dispatch-first d t u v (x ∷ left) more q h taken = absurd (omega arith)

-- The operations that do not take from the ready queue.
module _ (p : Platform) where
  pub data Step (s : Gq) : Gq → Type 0 where
    wakes : (t : ℕ) → Step s (p.uthread_runnable t s)
    yields : (t : ℕ) {s' : Gq} → yield_cb p t s ≡ some s' → Step s s'
    pauses : (t : ℕ) {s' : Gq} → pth_thread_paused p t s ≡ some s' → Step s s'
    blocks :
        (t : ℕ) (justice : Bool) {s' : Gq}
        → pth_thread_has_blocked t justice s ≡ some s'
        → Step s s'
    calls_system : (t : ℕ) {s' : Gq} → pth_blockon_syscall t s ≡ some (t, s') → Step s s'
    restarts : (t sysc : ℕ) {s' : Gq} → restart_thread p t sysc s ≡ some s' → Step s s'
    joins : (t target : ℕ) {s' : Gq} → join_cb p t target s ≡ some s' → Step s s'
    exits : (t : ℕ) {s' : Gq} → exit_cb p t s ≡ some s' → Step s s'

  -- `k` rounds of `pth_sched_entry` that find a thread, with any other operations in between.
  pub data Run (s : Gq) : ℕ → Gq → Type 0 where
    start : Run s 0 s
    other : {k : ℕ} {u v : Gq} → Run s k u → Step u v → Run s k v
    dispatch : {k : ℕ} {u v : Gq} (t : ℕ) → Run s k u → take_ready u ≡ (some t, v) → Run s (suc k) v

module _ (p : Platform)
    (dispatches : (t : ℕ) (s : Gq) → p.uthread_runnable t s ≡ pth_thread_runnable t s) where
  woken-Extends :
      (t : ℕ) (s s' : Gq) → s'.ready_queue ≡ s.ready_queue → Extends s (p.uthread_runnable t s')
  woken-Extends t s s' e = rw (dispatches t s') (runnable-Extends t s s' e)

  yields-Extends : (t : ℕ) (s s' : Gq) → yield_cb p t s ≡ some s' → Extends s s'
  unfolding yield_cb
  yields-Extends t s s' e =
      let (s₁, done, e') = bind-eq-some (generic_yield t s) _ e in
      subst (Extends s) (some_inj e') (woken-Extends t s _ (generic_yield-ready t s s₁ done))

  pauses-Extends : (t : ℕ) (s s' : Gq) → pth_thread_paused p t s ≡ some s' → Extends s s'
  unfolding pth_thread_paused
  pauses-Extends t s s' e =
      let (s₁, done, e') = bind-eq-some (generic_yield t s) _ e in
      subst (Extends s) (some_inj e') (woken-Extends t s _ (generic_yield-ready t s s₁ done))

  blocks-Extends :
      (t : ℕ) (justice : Bool) (s s' : Gq)
      → pth_thread_has_blocked t justice s ≡ some s'
      → Extends s s'
  unfolding pth_thread_has_blocked
  blocks-Extends t justice s s' e =
      let (s₁, done, e') = bind-eq-some (generic_yield t s) _ e in
      same-Extends s s' (ground (arith, generic_yield-ready t s s₁ done))

  calls-Extends : (t : ℕ) (s s' : Gq) → pth_blockon_syscall t s ≡ some (t, s') → Extends s s'
  unfolding pth_blockon_syscall
  calls-Extends t s s' e = same-Extends s s' (ground arith)

  restarts-Extends : (t sysc : ℕ) (s s' : Gq) → restart_thread p t sysc s ≡ some s' → Extends s s'
  unfolding restart_thread
  restarts-Extends t sysc s s' e =
      let (_, _, e₁) = bind-eq-some (assert p.debug _) _ e in
      let (_, _, e₂) = bind-eq-some (assert p.debug _) _ e₁ in
      subst (Extends s) (some_inj e₂)
        (runnable-Extends t s (with_tcb t (λ b. record b { sysc = none }) s) refl)

  join_wake-Extends :
      (o : Option ℕ) (t target : ℕ) (s s₁ s' : Gq)
      → s₁.ready_queue ≡ s.ready_queue
      → join_wake p o t target s₁ ≡ some s'
      → Extends s s'
  unfolding join_wake
  join_wake-Extends none t target s s₁ s' same e = same-Extends s s' (ground arith)
  join_wake-Extends (some j) t target s s₁ s' same e =
      let (_, _, e') = bind-eq-some (assert p.debug _) _ e in
      subst (Extends s) (some_inj e') (woken-Extends t s s₁ same)

  joins-Extends : (t target : ℕ) (s s' : Gq) → join_cb p t target s ≡ some s' → Extends s s'
  unfolding join_cb
  joins-Extends t target s s' e =
      let (s₁, done, e') = bind-eq-some (generic_yield t s) _ e in
      join_wake-Extends _ t target s _ s' (generic_yield-ready t s s₁ done) e'

  exit_wake-Extends :
      (o : Option ℕ) (s s₁ : Gq) → s₁.ready_queue ≡ s.ready_queue → Extends s (exit_wake p o s₁)
  unfolding exit_wake
  exit_wake-Extends none s s₁ same = same-Extends s s₁ same
  exit_wake-Extends (some j) s s₁ same = woken-Extends j s s₁ same

  exit_release-Extends :
      (t : ℕ) (s s₁ : Gq) → s₁.ready_queue ≡ s.ready_queue → Extends s (exit_release p t s₁)
  unfolding exit_release
  exit_release-Extends t s s₁ same = elim (Bool-cases (s₁.tcb t).detached) [
    | inl d ↦ rw (d, exit_release) (same-Extends s (call (free t) s₁) same)
    | inr d ↦ rw (d, exit_release) (exit_wake-Extends _ s _ same)
  ]

  exits-Extends : (t : ℕ) (s s' : Gq) → exit_cb p t s ≡ some s' → Extends s s'
  unfolding exit_cb
  exits-Extends t s s' e =
      let (s₁, done, e₁) = bind-eq-some (generic_yield t s) _ e in
      let (_, _, e₂) = bind-eq-some (free_stack p (s₁.tcb t)) _ e₁ in
      subst (Extends s) (some_inj e₂) (
        exit_release-Extends t s (call (uthread_cleanup t) (to_state exiting t s₁))
          (generic_yield-ready t s s₁ done))

  pub Step-Extends : {s s' : Gq} → Step p s s' → Extends s s'
  Step-Extends {s} (wakes t) = woken-Extends t s s refl
  Step-Extends {s} {s'} (yields t e) = yields-Extends t s s' e
  Step-Extends {s} {s'} (pauses t e) = pauses-Extends t s s' e
  Step-Extends {s} {s'} (blocks t j e) = blocks-Extends t j s s' e
  Step-Extends {s} {s'} (calls_system t e) = calls-Extends t s s' e
  Step-Extends {s} {s'} (restarts t sysc e) = restarts-Extends t sysc s s' e
  Step-Extends {s} {s'} (joins t target e) = joins-Extends t target s s' e
  Step-Extends {s} {s'} (exits t e) = exits-Extends t s s' e

  -- After fewer dispatches than stand before it, a thread has come forward by as many places.
  Run-forward :
      {s s' : Gq} {k : ℕ}
      → Run p s k s'
      → (before behind : List ℕ) (t : ℕ) → s.ready_queue ≡ before ++ t ∷ behind
      → k ≤ length before
      → (left more : List ℕ) × (s'.ready_queue ≡ left ++ t ∷ more)
        × (length left + k ≡ length before)
  Run-forward start before behind t e h = (before, behind, e, omega arith)
  Run-forward (other {u = u} {v = v} r st) before behind t e h =
      let (left, more, q, len) = Run-forward r before behind t e h in
      let (xs, grown) = Step-Extends st in
      (
        left,
        more ++ xs,
        grown ∙ ap (λ (l : List ℕ). l ++ xs) q ∙ append_assoc left (t ∷ more) xs,
        len,
      )
  Run-forward (dispatch {u = u} {v = v} d r taken) before behind t e h =
      let (left, more, q, len) = Run-forward r before behind t e (omega arith) in
      let (left', q', len') = dispatch-front d t u v left more q (omega arith) taken in
      (left', more, q', omega arith)

  -- A ready thread that has `before` in front of it is the one that runs at the dispatch after
  -- `length before` dispatches, whatever else the threads do in between.
  pub served_in_order :
      {s u v : Gq}
      → (before behind : List ℕ) (t d : ℕ) → s.ready_queue ≡ before ++ t ∷ behind
      → Run p s (length before) u
      → take_ready u ≡ (some d, v)
      → d ≡ t
  served_in_order {u = u} {v = v} before behind t d e r taken =
      let (left, more, q, len) = Run-forward r before behind t e (omega arith) in
      dispatch-first d t u v left more q (omega arith) taken
