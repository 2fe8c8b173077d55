-- ===== src/Semaphore/Moves.antt =====
-- src/common/semaphore.c: the steps of Semaphore/System that change the semaphore or the queue of its
-- value, and the invariant.
use upthread.Base.{
  ℕ, suc, ◌<◌, ◌≡◌, ◌≢◌, inl, inr, Bool, true, false, none, some, List, [], ◌∷◌, arith,
  if◌then◌else◌, ==_refl, Bool-cases, insert_tail, count-insert_tail, count-cons, ℤ, pos, decr,
  eq_int, eq_int→eq, int_max, fetch_and_add-incr,
}
use upthread.Base.Sums.{update, total-update, weight-le-total}
use upthread.Futex.Ops.{take_some}
use upthread.Semaphore.Ops.{swap_decrement, count_waiter, add_value}
use upthread.Semaphore.System.{
  Pc, idle, trying, swapping, counting, entering, yielding, checked, asleep, posted, taking, waking,
  System, to, swapped, took, is_zero,
}
use upthread.Semaphore.Invariant.{wakes, pending, Inv, asleep_of, take_nil, take_first, to-Inv}

module _ {n initial : ℕ} {s : System} (inv : Inv n initial s) (i : ℕ) (lt : i < n) where
  granted-Inv :
      (again : Bool) (value : ℤ)
      → s.pc i ≡ swapping again value
      → s.sem.value ≡ value
      → Inv n initial
          (record (to i idle s) { sem = record s.sem { value = decr value }; taken = suc s.taken })
  granted-Inv again value at e = record {
    beyond = λ j h. ground (arith, inv.beyond j h);
    nonneg = ground (arith, inv.nonneg, inv.positive_load i);
    counted = inv.counted;
    conserved = ground (arith, inv.nonneg, inv.conserved, inv.positive_load i);
    holder = λ j e. ground (arith, inv.holder j);
    locked = λ j e. ground (arith, inv.locked j);
    positive_load = λ j. ground (arith, inv.positive_load j);
    known = λ j e. ground (arith, inv.known j);
    queue_known = inv.queue_known;
    waits = λ t. ground (arith, inv.waits t, total-update (wakes t) n s.pc i idle);
    progress = λ h. ground (
      arith,
      inv.nonneg,
      inv.positive_load i,
      inv.progress h,
      total-update pending n s.pc i idle,
    );
  }

  -- The compare-and-swap of a positive value.
  pub swap-Inv :
      (again : Bool) (value : ℤ)
      → s.pc i ≡ swapping again value
      → Inv n initial (swapped i again (swap_decrement value s.sem) s)
  unfolding swap_decrement
  swap-Inv again value at = elim (Bool-cases (eq_int s.sem.value value)) [
    | inl e ↦ rw (stores e) (granted-Inv again value at (eq_int→eq s.sem.value value e))
    | inr e ↦ rw (fails e) (
        to-Inv inv i lt (swapping again value) (trying again) at tt tt tt
          (ground (arith, inv.known i)) (λ h. inl (ground arith)))
  ]
    where
      stores :
          eq_int s.sem.value value ≡ true
          → swap_decrement value s.sem ≡ (true, record s.sem { value = decr value })
      stores e = ground arith

      fails : eq_int s.sem.value value ≡ false → swap_decrement value s.sem ≡ (false, s.sem)
      fails e = ground arith

  pub register-Inv :
      (b : Bool)
      → s.pc i ≡ counting
      → eq_int s.sem.nwaiters int_max ≡ false
      → Inv n initial (record (to i entering s) { sem = count_waiter s.sem; wrapped = b })
  unfolding count_waiter
  register-Inv b at room = rw (fetch_and_add-incr s.sem.nwaiters room) (record {
    beyond = λ j h. ground (arith, inv.beyond j h);
    nonneg = inv.nonneg;
    counted = ground (arith, inv.counted);
    conserved = inv.conserved;
    holder = λ j e. ground (arith, inv.holder j);
    locked = λ j e. ground (arith, inv.locked j);
    positive_load = λ j. ground (arith, inv.positive_load j);
    known = λ j e. ground (arith, inv.counted);
    queue_known = λ h. ground (arith, inv.counted);
    waits = λ t. ground (arith, inv.waits t, total-update (wakes t) n s.pc i entering);
    progress = λ h. ground (arith, inv.progress h, total-update pending n s.pc i entering);
  })

  pub check-Inv :
      s.pc i ≡ yielding
      → s.lock ≡ none
      → Inv n initial
          (if is_zero s then record (to i checked s) { lock = some i } else to i (trying true) s)
  check-Inv at free = elim (Bool-cases (is_zero s)) [
    | inl e ↦ rw e (record {
      beyond = λ j h. ground (arith, inv.beyond j h);
      nonneg = inv.nonneg;
      counted = inv.counted;
      conserved = inv.conserved;
      holder = λ j e. ground (arith, inv.holder j);
      locked = λ j e. ground (arith, inv.locked j);
      positive_load = λ j. ground (arith, inv.positive_load j);
      known = λ j e. ground (arith, inv.known j, inv.known i);
      queue_known = λ h. ground (arith, inv.known i);
      waits = λ t. ground (arith, inv.waits t, total-update (wakes t) n s.pc i checked);
      progress = λ h. ground (arith, eq_int→eq s.sem.value (pos 0) e);
    })
    | inr e ↦ rw e (
        to-Inv inv i lt yielding (trying true) at tt tt tt (ground (arith, inv.known i))
          (λ h. inl (ground arith)))
  ]

  pub sleep-Inv :
      s.pc i ≡ checked
      → Inv n initial (record (to i asleep s) { queue = insert_tail s.queue i; lock = none })
  sleep-Inv at = record {
    beyond = λ j h. ground (arith, inv.beyond j h);
    nonneg = inv.nonneg;
    counted = inv.counted;
    conserved = inv.conserved;
    holder = λ j e. ground (arith, inv.holder j, inv.holder i);
    locked = λ j e. ground (arith, inv.locked j);
    positive_load = λ j. ground (arith, inv.positive_load j);
    known = λ j e. ground (arith, inv.known j, inv.known i);
    queue_known = λ h. ground (arith, inv.known i);
    waits = λ t.
        ground (
          arith,
          inv.waits t,
          count-insert_tail t s.queue i,
          total-update (wakes t) n s.pc i asleep,
        );
    progress =
        λ h. ground (arith, inv.progress, inv.holder i, total-update pending n s.pc i asleep);
  }

  pub post-Inv :
      (b : Bool)
      → s.pc i ≡ idle
      → eq_int s.sem.value int_max ≡ false
      → Inv n initial
          (record (to i posted s) { sem = add_value s.sem; given = suc s.given; wrapped = b })
  unfolding add_value
  post-Inv b at room = rw (fetch_and_add-incr s.sem.value room) (record {
    beyond = λ j h. ground (arith, inv.beyond j h);
    nonneg = ground (arith, inv.nonneg);
    counted = inv.counted;
    conserved = ground (arith, inv.nonneg, inv.conserved);
    holder = λ j e. ground (arith, inv.holder j);
    locked = λ j e. ground (arith, inv.locked j);
    positive_load = λ j. ground (arith, inv.positive_load j);
    known = λ j e. ground (arith, inv.known j);
    queue_known = inv.queue_known;
    waits = λ t. ground (arith, inv.waits t, total-update (wakes t) n s.pc i posted);
    progress =
        λ h. ground (arith, inv.nonneg, inv.progress h, total-update pending n s.pc i posted);
  })

  -- `futex_wake_some` takes the first of the queue.
  pub popped-Inv :
      (q : List ℕ)
      → s.pc i ≡ taking
      → s.lock ≡ none
      → s.queue ≡ q
      → Inv n initial (took i (take_some (pos 1) q) s)
  popped-Inv [] at free e = rw take_nil (record {
    beyond = λ j h. ground (arith, inv.beyond j h);
    nonneg = inv.nonneg;
    counted = inv.counted;
    conserved = inv.conserved;
    holder = λ j e. ground (arith, inv.holder j);
    locked = λ j e. ground (arith, inv.locked j);
    positive_load = λ j. ground (arith, inv.positive_load j);
    known = λ j e. ground (arith, inv.known j);
    queue_known = λ h. ground arith;
    waits = λ t. ground (arith, inv.waits t, total-update (wakes t) n s.pc i idle);
    progress = λ h. ground arith;
  })
  popped-Inv (u ∷ rest) at free e = rw (take_first u rest) (record {
    beyond = λ j h. ground (arith, inv.beyond j h);
    nonneg = inv.nonneg;
    counted = inv.counted;
    conserved = inv.conserved;
    holder = λ j e. ground (arith, inv.holder j);
    locked = λ j e. ground (arith, inv.locked j);
    positive_load = λ j. ground (arith, inv.positive_load j);
    known = λ j e. ground (arith, inv.known j);
    queue_known = λ h. ground (arith, inv.queue_known);
    waits = λ t.
        ground
          (arith, inv.waits t, count-cons t u rest, total-update (wakes t) n s.pc i (waking u));
    progress = λ h. ground (arith, inv.progress, total-update pending n s.pc i (waking u));
  })

  -- A thread about to be woken is asleep, and is another one.
  pub waking-asleep : (t : ℕ) → s.pc i ≡ waking t → (s.pc t ≡ asleep) × (t < n) × (t ≢ i)
  waking-asleep t at = ground (
    arith,
    inv.waits t,
    weight-le-total (wakes t) n s.pc i lt,
    ==_refl t,
    inv.beyond t,
    asleep_of (s.pc t),
  )

  pub wake-Inv :
      (t : ℕ)
      → s.pc i ≡ waking t
      → Inv n initial (record s { pc = update (update s.pc t (trying true)) i idle })
  wake-Inv t at =
      let (p, below, ne) = waking-asleep t at in
      let woke : ℕ → Pc = update s.pc t (trying true) in
      record {
        beyond = λ j h. ground (arith, inv.beyond j h);
        nonneg = inv.nonneg;
        counted = inv.counted;
        conserved = inv.conserved;
        holder = λ j e. ground (arith, inv.holder j);
        locked = λ j e. ground (arith, inv.locked j);
        positive_load = λ j. ground (arith, inv.positive_load j);
        known = λ j e. ground (arith, inv.known j, inv.known t);
        queue_known = inv.queue_known;
        waits = λ u. ground (
          arith,
          inv.waits u,
          total-update (wakes u) n woke i idle,
          total-update (wakes u) n s.pc t (trying true),
        );
        progress = λ h. ground (
          arith,
          inv.progress h,
          total-update pending n woke i idle,
          total-update pending n s.pc t (trying true),
        );
      }
