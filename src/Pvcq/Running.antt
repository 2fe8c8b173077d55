-- ===== src/Pvcq/Running.antt =====
-- src/pvcq/upthread.c, lines 248-279: a vcore of Pvcq/System looks for a thread and runs it.
use upthread.Base.{
  ℕ, ◌<◌, ◌≡◌, refl, sym, subst, Option, none, some, ◌∷◌, arith, assert, ==_refl, bind-eq-some,
  some_inj,
}
use upthread.Base.Sums.{update, update_self}
use upthread.Tcb.{running}
use upthread.Pvcq.State.{Pvcq, Platform, to_state, call, run_uthread}
use upthread.Pvcq.Threads.{run_found}
use upthread.Pvcq.Invariant.{Takes}
use upthread.Pvcq.Places.{take-Places, run-Places}
use upthread.Pvcq.Kept.{take-Kept, run-Kept}
use upthread.Pvcq.Slots.{Slots, loose, retag-Slots, same-Slots}
use upthread.Pvcq.Moves.{Inv}

taken-Slots :
    (m self : ℕ) (b : Pvcq) (r : Option ℕ × Pvcq) → Slots b.tcb → Takes m self b r → Slots r.1.tcb
taken-Slots m self b r h k =
    same-Slots b.tcb r.1.tcb h (λ u. (k.same u).state) (λ u. (k.same u).joiner)

pub found-Inv :
    (p : Platform) (m v : ℕ) (b : Pvcq) (c : ℕ → Option ℕ) (r : Option ℕ × Pvcq) (o : Option ℕ)
    (b' : Pvcq)
    → v < m
    → Inv m b c
    → c v ≡ none
    → Takes m v b r
    → run_found p r ≡ some (o, b')
    → Inv m b' (update c v o)
unfolding run_found
found-Inv p m v b c (none, s) o b' lt h idle k e =
    let q : Path (Option ℕ × Pvcq) (none, s) (o, b') = some_inj e in
    subst (λ (x : Option ℕ × Pvcq). Inv m x.1 (update c v x.0)) q
      (subst (λ x. Inv m s x) (sym (update_self c v none idle))
        (record {
          places = take-Places m v b c (none, s) lt h.places k;
          slots = taken-Slots m v b (none, s) h.slots k;
          kept = take-Kept m v b s c h.kept k;
        }))
found-Inv p m v b c (some t, s) o b' lt h idle k e =
    let (_, _, e') = bind-eq-some (assert p.debug _) _ e in
    let q : Path (Option ℕ × Pvcq) (some t, call (run_uthread t) (to_state running t s)) (o, b') =
      some_inj e' in
    let st = (k.taken t refl).0 in
    let slots = taken-Slots m v b (some t, s) h.slots k in
    subst (λ (x : Option ℕ × Pvcq). Inv m x.1 (update c v x.0)) q
      (record {
        places =
            run-Places m v t (run_uthread t ∷ s.calls) s c
              (take-Places m v b c (some t, s) lt h.places k) st
              (ground (arith, k.kept t, h.places.once t, ==_refl t));
        slots =
            retag-Slots s.tcb (to_state running t s).tcb t slots
              (loose s.tcb t slots (λ e. ground arith)) (λ e. ground arith) (λ u ne. ground arith)
              (λ u. ground arith);
        kept = run-Kept m v t (run_uthread t ∷ s.calls) b s c h.kept k idle;
      })
