-- ===== src/Condvar/Invariant.antt =====
-- src/common/condvar.c: where the waiters of Condvar/System stand, and who has the condition
-- variable's lock.
use upthread.Base.{
  ℕ, ◌+◌, ◌≤◌, ◌<◌, ◌≡◌, refl, ◌≢◌, Bool, true, false, none, some, List, [], ◌∷◌, arith, ◌==◌, bit,
  ==_refl, Bool-cases, count, count-insert_tail, count-cons,
}
use upthread.Base.Sums.{update, total, total-update, weight-le-total}
use upthread.Mutex.Ops.{Mutex}
use upthread.Condvar.System.{
  Pc, idle, entering, releasing, handing, leaving, sleeping, relocking, rousing, System, back,
  after_rouse, move, enter_queue,
}

-- In `block`, with the lock of the condition variable.
abbrev pub is_inside : Pc → Bool
is_inside releasing = true
is_inside (handing t) = true
is_inside leaving = true
is_inside _ = false

-- A thread that has queued itself and was not made runnable since.
abbrev pub is_queued : Pc → ℕ
is_queued releasing = 1
is_queued (handing t) = 1
is_queued leaving = 1
is_queued sleeping = 1
is_queued _ = 0

-- The threads that are about to make `t` runnable for the condition variable.
abbrev pub rouses_it : ℕ → Pc → ℕ
rouses_it t (rousing held more u) = bit (t == u)
rouses_it t _ = 0

pub record Inv (n : ℕ) (s : System) : Type 0 where
  pub beyond : (i : ℕ) → n ≤ i → s.pc i ≡ idle
  pub inside : (i : ℕ) → is_inside (s.pc i) ≡ true → s.lock ≡ some i
  pub locked : (i : ℕ) → s.lock ≡ some i → is_inside (s.pc i) ≡ true
  pub armed : (i : ℕ) → s.pc i ≡ releasing → s.cond.waiting_mutex ≡ some 0
  pub queued : (t : ℕ) → count t s.cond.queue + total (rouses_it t) n s.pc ≡ is_queued (s.pc t)
  pub roused : (t : ℕ) → 1 ≤ total (rouses_it t) n s.pc → s.pc t ≡ sleeping

-- A move of a thread between places that are outside the queue and the lock.
abbrev pub IsPlain : Pc → Type 0
IsPlain p = (is_inside p ≡ false) × (is_queued p ≡ 0) × ((t : ℕ) → rouses_it t p ≡ 0)

pub back-IsPlain : (held : Bool) → IsPlain (back held)
back-IsPlain true = (refl, refl, λ t. refl)
back-IsPlain false = (refl, refl, λ t. refl)

rouse-IsPlain : (held more : Bool) → IsPlain (after_rouse held more)
rouse-IsPlain held true = (refl, refl, λ t. refl)
rouse-IsPlain held false = back-IsPlain held

inside_queued :
    (p : Pc) (t : ℕ) → is_inside p ≡ true → (is_queued p ≡ 1) × (rouses_it t p ≡ 0) × (p ≢ sleeping)
inside_queued p t h = ground arith

queued_outside : (p : Pc) → is_queued p ≡ 1 → is_inside p ≡ false → p ≡ sleeping
queued_outside p h k = ground arith

module _ (n i : ℕ) (s : System) (inv : Inv n s) (lt : i < n) where
  pub plain-Inv : (p : Pc) (m : Mutex) → IsPlain (s.pc i) → IsPlain p → Inv n (move i p m s)
  plain-Inv p m (a, b, c) (a', b', c') = record {
    beyond = λ j h. ground (arith, inv.beyond j h);
    inside = λ j h. ground (arith, inv.inside j);
    locked = λ j h. ground (arith, inv.locked j);
    armed = λ j h. ground (arith, inv.armed j);
    queued = λ t. ground (arith, inv.queued t, total-update (rouses_it t) n s.pc i p, c t, c' t);
    roused = λ t h. ground (arith, inv.roused t, total-update (rouses_it t) n s.pc i p, c t, c' t);
  }

  -- A step of `block` with the lock.
  pub inside-Inv :
      (p : Pc) (m : Mutex)
      → is_inside (s.pc i) ≡ true
      → is_inside p ≡ true
      → p ≢ releasing
      → Inv n (move i p m s)
  inside-Inv p m a a' ne = record {
    beyond = λ j h. ground (arith, inv.beyond j h);
    inside = λ j h. ground (arith, inv.inside j, inv.inside i);
    locked = λ j h. ground (arith, inv.locked j);
    armed = λ j h. ground (arith, inv.armed j);
    queued = λ t. ground (
      arith,
      inv.queued t,
      total-update (rouses_it t) n s.pc i p,
      inside_queued (s.pc i) t a,
      inside_queued p t a',
    );
    roused = λ t h. ground (
      arith,
      inv.roused t,
      total-update (rouses_it t) n s.pc i p,
      inside_queued (s.pc i) t a,
      inside_queued p t a',
    );
  }

  pub queue-Inv :
      s.pc i ≡ entering
      → s.lock ≡ none
      → Inv n
          (record s { cond = enter_queue i s.cond; lock = some i; pc = update s.pc i releasing })
  queue-Inv at free = record {
    beyond = λ j h. ground (arith, inv.beyond j h);
    inside = λ j h. ground (arith, inv.inside j);
    locked = λ j h. ground (arith, inv.locked j);
    armed = λ j h. refl;
    queued = λ t. ground (
      arith,
      inv.queued t,
      count-insert_tail t s.cond.queue i,
      total-update (rouses_it t) n s.pc i releasing,
    );
    roused = λ t h. ground (arith, inv.roused t, total-update (rouses_it t) n s.pc i releasing);
  }

  pub leave-Inv : s.pc i ≡ leaving → Inv n (record s { lock = none; pc = update s.pc i sleeping })
  leave-Inv at = record {
    beyond = λ j h. ground (arith, inv.beyond j h);
    inside = λ j h. ground (arith, inv.inside j, inv.inside i);
    locked = λ j h. absurd (ground arith);
    armed = λ j h. ground (arith, inv.inside j, inv.inside i);
    queued = λ t. ground (arith, inv.queued t, total-update (rouses_it t) n s.pc i sleeping);
    roused = λ t h. ground (arith, inv.roused t, total-update (rouses_it t) n s.pc i sleeping);
  }

  pub take_none-Inv :
      (held : Bool)
      → IsPlain (s.pc i)
      → s.cond.queue ≡ []
      → Inv n (record s { cond = record s.cond { queue = [] }; pc = update s.pc i (back held) })
  take_none-Inv held (a, b, c) e =
      let (a', b', c') = back-IsPlain held in
      record {
        beyond = λ j h. ground (arith, inv.beyond j h);
        inside = λ j h. ground (arith, inv.inside j);
        locked = λ j h. ground (arith, inv.locked j);
        armed = λ j h. ground (arith, inv.armed j);
        queued = λ t.
            ground
              (arith, inv.queued t, total-update (rouses_it t) n s.pc i (back held), c t, c' t);
        roused = λ t h.
            ground
              (arith, inv.roused t, total-update (rouses_it t) n s.pc i (back held), c t, c' t);
      }

  -- The first waiter sleeps, since nobody has the lock.
  first-sleeping :
      (t : ℕ) (rest : List ℕ) → s.lock ≡ none → s.cond.queue ≡ t ∷ rest → s.pc t ≡ sleeping
  first-sleeping t rest free e =
      queued_outside (s.pc t) (ground (arith, inv.queued t, count-cons t t rest, ==_refl t))
        (ground (arith, inv.inside t, Bool-cases (is_inside (s.pc t))))

  pub take_some-Inv :
      (held more : Bool) (t : ℕ) (rest : List ℕ)
      → IsPlain (s.pc i)
      → s.lock ≡ none
      → s.cond.queue ≡ t ∷ rest
      → Inv n (record s {
        cond = record s.cond { queue = rest };
        pc = update s.pc i (rousing held more t);
      })
  take_some-Inv held more t rest (a, b, c) free e = record {
    beyond = λ j h. ground (arith, inv.beyond j h);
    inside = λ j h. ground (arith, inv.inside j);
    locked = λ j h. ground (arith, inv.locked j);
    armed = λ j h. ground (arith, inv.armed j);
    queued = λ u. ground (
      arith,
      inv.queued u,
      count-cons u t rest,
      total-update (rouses_it u) n s.pc i (rousing held more t),
      c u,
    );
    roused = λ u h. ground (
      arith,
      inv.roused u,
      first-sleeping t rest free e,
      total-update (rouses_it u) n s.pc i (rousing held more t),
      c u,
    );
  }

  pub rousing-sleeping :
      (held more : Bool) (t : ℕ)
      → s.pc i ≡ rousing held more t
      → (s.pc t ≡ sleeping) × (t < n) × (t ≢ i)
  rousing-sleeping held more t at =
      let e : s.pc t ≡ sleeping =
        inv.roused t (ground (arith, weight-le-total (rouses_it t) n s.pc i lt, ==_refl t)) in
      (e, ground (arith, inv.beyond t), λ q. ground arith)

  pub rouse-Inv :
      (held more : Bool) (t : ℕ)
      → s.pc i ≡ rousing held more t
      → Inv n (record s { pc = update (update s.pc t relocking) i (after_rouse held more) })
  rouse-Inv held more t at =
      let (e, below, ne) = rousing-sleeping held more t at in
      let (a', b', c') = rouse-IsPlain held more in
      let up : ℕ → Pc = update s.pc t relocking in
      record {
        beyond = λ j h. ground (arith, inv.beyond j h);
        inside = λ j h. ground (arith, inv.inside j);
        locked = λ j h. ground (arith, inv.locked j);
        armed = λ j h. ground (arith, inv.armed j);
        queued = λ u. ground (
          arith,
          inv.queued u,
          c' u,
          total-update (rouses_it u) n up i (after_rouse held more),
          total-update (rouses_it u) n s.pc t relocking,
        );
        roused = λ u h. ground (
          arith,
          inv.queued u,
          inv.roused u,
          c' u,
          total-update (rouses_it u) n up i (after_rouse held more),
          total-update (rouses_it u) n s.pc t relocking,
        );
      }
