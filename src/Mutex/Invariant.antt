-- ===== src/Mutex/Invariant.antt =====
-- What the threads of Mutex/System know of the mutex: who holds it and how often, where every
-- blocked thread waits, and that a free mutex with blocked threads has one under way to it.
use upthread.Base.{
  refl, ==_refl, List, [], ◌∷◌, count-cons, decr, ℕ, suc, ◌+◌, ◌≤◌, ◌<◌, ◌≡◌, true, none, some, pos,
  incr, arith, bit, ◌==◌, count, count-insert_tail, length, ◌⊎◌, nonzero, ◌≢◌,
}
use upthread.Base.Sums.{update, total, total-update, weight-le-total}
use upthread.Mutex.Ops.{Mutex, take, enqueue}
use upthread.Mutex.System.{Pc, idle, parked, woken, holding, waking}

-- How often a thread has the mutex locked.
abbrev pub held : Pc → ℕ
held (holding k) = suc k
held _ = 0

abbrev pub is_parked : Pc → ℕ
is_parked parked = 1
is_parked _ = 0

-- The threads that are about to make `t` runnable.
abbrev pub wakes : ℕ → Pc → ℕ
wakes t (waking u) = bit (t == u)
wakes t _ = 0

-- The threads that will try for the mutex again, and those about to wake one that will.
abbrev pub under_way : Pc → ℕ
under_way woken = 1
under_way (waking _) = 1
under_way _ = 0

pub record Inv (n : ℕ) (m : Mutex) (pc : ℕ → Pc) : Type 0 where
  pub beyond : (i : ℕ) → n ≤ i → pc i ≡ idle
  pub unowned : m.owner ≡ none → m.locked ≡ pos 0
  pub owned : (i : ℕ) → m.owner ≡ some i → (m.locked ≡ pos (held (pc i))) × (1 ≤ held (pc i))
  pub owns : (i : ℕ) → 1 ≤ held (pc i) → m.owner ≡ some i
  pub waits : (t : ℕ) → count t m.queue + total (wakes t) n pc ≡ is_parked (pc t)
  pub progress : m.locked ≡ pos 0 → 1 ≤ length m.queue → 1 ≤ total under_way n pc

parked_of : (p : Pc) → 1 ≤ is_parked p → p ≡ parked
parked_of p h = ground arith

module _ {n : ℕ} {m : Mutex} {pc : ℕ → Pc} (inv : Inv n m pc) (i : ℕ) (lt : i < n) where
  -- A thread that neither holds nor waits takes a free mutex.
  pub take-Inv :
      (pc i ≡ idle) ⊎ (pc i ≡ woken) → m.locked ≡ pos 0 → Inv n (take i m) (update pc i (holding 0))
  take-Inv at free = record {
    beyond = λ j h. ground (arith, inv.beyond j h);
    unowned = λ e. cc;
    owned = λ j e. ground arith;
    owns = λ j h. ground (arith, inv.owns j, inv.owned j);
    waits = λ t. ground (arith, inv.waits t, total-update (wakes t) n pc i (holding 0));
    progress = λ e h. ground arith;
  }

  -- The owner locks a recursive mutex once more.
  pub relock-Inv :
      (k : ℕ)
      → pc i ≡ holding k
      → Inv n (record m { locked = incr m.locked }) (update pc i (holding (suc k)))
  relock-Inv k at = record {
    beyond = λ j h. ground (arith, inv.beyond j h);
    unowned = λ e. ground (arith, inv.owns i);
    owned = λ j e. ground (arith, inv.owns i, inv.owned j);
    owns = λ j h. ground (arith, inv.owns j, inv.owns i);
    waits = λ t. ground (arith, inv.waits t, total-update (wakes t) n pc i (holding (suc k)));
    progress = λ e h. ground (arith, inv.owns i, inv.owned i);
  }

  -- A thread goes to sleep on a mutex that is held.
  pub park-Inv :
      (pc i ≡ idle) ⊎ (pc i ≡ woken)
      → nonzero m.locked ≡ true
      → Inv n (enqueue i m) (update pc i parked)
  park-Inv at busy = record {
    beyond = λ j h. ground (arith, inv.beyond j h);
    unowned = inv.unowned;
    owned = λ j e. ground (arith, inv.owned j);
    owns = λ j h. ground (arith, inv.owns j);
    waits = λ t.
        ground
          (arith, inv.waits t, count-insert_tail t m.queue i, total-update (wakes t) n pc i parked);
    progress = λ e h. ground arith;
  }

  -- An unlock of a mutex that is locked more than once.
  pub unlock_inner-Inv :
      (k : ℕ)
      → pc i ≡ holding (suc k)
      → Inv n (record m { locked = decr m.locked }) (update pc i (holding k))
  unlock_inner-Inv k at = record {
    beyond = λ j h. ground (arith, inv.beyond j h);
    unowned = λ e. ground (arith, inv.owns i);
    owned = λ j e. ground (arith, inv.owns i, inv.owned j, inv.owned i);
    owns = λ j h. ground (arith, inv.owns j, inv.owns i);
    waits = λ t. ground (arith, inv.waits t, total-update (wakes t) n pc i (holding k));
    progress = λ e h. ground (arith, inv.owns i, inv.owned i);
  }

  -- The last unlock, with nobody in the queue.
  pub unlock_idle-Inv :
      pc i ≡ holding 0
      → m.queue ≡ []
      → Inv n (record m { locked = pos 0; queue = []; owner = none }) (update pc i idle)
  unlock_idle-Inv at e = record {
    beyond = λ j h. ground (arith, inv.beyond j h);
    unowned = λ e. refl;
    owned = λ j e. cc;
    owns = λ j h. ground (arith, inv.owns j, inv.owns i);
    waits = λ t. ground (arith, inv.waits t, total-update (wakes t) n pc i idle);
    progress = λ e h. absurd (omega arith);
  }

  -- The last unlock takes the first thread of the queue, to wake it.
  pub unlock_next-Inv :
      (t : ℕ) (rest : List ℕ)
      → pc i ≡ holding 0
      → m.queue ≡ t ∷ rest
      → Inv n (record m { locked = pos 0; queue = rest; owner = none }) (update pc i (waking t))
  unlock_next-Inv t rest at e = record {
    beyond = λ j h. ground (arith, inv.beyond j h);
    unowned = λ e. refl;
    owned = λ j e. cc;
    owns = λ j h. ground (arith, inv.owns j, inv.owns i);
    waits = λ u.
        ground (arith, inv.waits u, count-cons u t rest, total-update (wakes u) n pc i (waking t));
    progress = λ e h. ground (arith, weight-le-total under_way n (update pc i (waking t)) i lt);
  }

  -- A thread about to be woken is blocked, and is another one.
  pub waking-parked : (t : ℕ) → pc i ≡ waking t → (pc t ≡ parked) × (t < n) × (t ≢ i)
  waking-parked t at = ground (
    arith,
    inv.waits t,
    weight-le-total (wakes t) n pc i lt,
    ==_refl t,
    inv.beyond t,
    parked_of (pc t),
  )

  pub wake-Inv : (t : ℕ) → pc i ≡ waking t → Inv n m (update (update pc t woken) i idle)
  wake-Inv t at =
      let (p, below, ne) = waking-parked t at in
      let woke : ℕ → Pc = update pc t woken in
      record {
        beyond = λ j h. ground (arith, inv.beyond j h);
        unowned = inv.unowned;
        owned = λ j e. ground (arith, inv.owned j);
        owns = λ j h. ground (arith, inv.owns j);
        waits = λ u. ground (
          arith,
          inv.waits u,
          total-update (wakes u) n woke i idle,
          total-update (wakes u) n pc t woken,
        );
        progress = λ e h. ground (arith, weight-le-total under_way n (update woke i idle) t below);
      }
