-- ===== src/Semaphore/Invariant.antt =====
-- What the threads of Semaphore/System know of the semaphore. The heart is `progress`: while a
-- thread waits in the queue, each unit of the value has a post that will wake or a woken thread that
-- will try again.
use upthread.Base.{
  ℕ, ◌+◌, ◌≤◌, ◌<◌, ◌≡◌, refl, sym, ◌∙◌, ◌≢◌, ◌⊎◌, inl, inr, Bool, true, false, some, List, [], ◌∷◌,
  arith, ◌==◌, if◌then◌else◌, bit, Bool-cases, is_some, length, count, pos, positive, pos_part,
}
use upthread.Base.Sums.{total, total-update}
use mathlib.Core.Bool.{false≢true}
use upthread.Futex.Ops.{take_some}
use upthread.Semaphore.Ops.{loaded}
use upthread.Semaphore.System.{
  Pc, idle, trying, swapping, counting, entering, yielding, checked, asleep, posted, taking, waking,
  System, to, is_zero, after_load, after_fail,
}

abbrev pub is_asleep : Pc → ℕ
is_asleep asleep = 1
is_asleep _ = 0

abbrev pub wakes : ℕ → Pc → ℕ
wakes t (waking u) = bit (t == u)
wakes t _ = 0

-- Posts that have not woken a thread yet, and woken threads that have not tried again.
abbrev pub pending : Pc → ℕ
pending posted = 1
pending taking = 1
pending (waking _) = 1
pending (trying true) = 1
pending (swapping true _) = 1
pending _ = 0

-- A thread that has counted itself in `nwaiters`.
abbrev pub registered : Pc → ℕ
registered entering = 1
registered yielding = 1
registered checked = 1
registered asleep = 1
registered (trying true) = 1
registered (swapping true _) = 1
registered _ = 0

-- The waiting threads: those queued, and the one that holds the queue's lock to queue itself.
abbrev pub waiting : System → ℕ
waiting s = length s.queue + bit (is_some s.lock)

-- A loaded value that the compare-and-swap is to find again.
abbrev pub IsLoaded : Pc → Type 0
IsLoaded (swapping again value) = positive value ≡ true
IsLoaded _ = Unit {0}

pub record Inv (n initial : ℕ) (s : System) : Type 0 where
  pub beyond : (i : ℕ) → n ≤ i → s.pc i ≡ idle
  pub nonneg : s.sem.value ≡ pos (pos_part s.sem.value)
  pub counted : s.sem.nwaiters ≡ pos (pos_part s.sem.nwaiters)
  pub conserved : pos_part s.sem.value + s.taken ≡ initial + s.given
  pub holder : (i : ℕ) → s.pc i ≡ checked → s.lock ≡ some i
  pub locked : (i : ℕ) → s.lock ≡ some i → s.pc i ≡ checked
  pub positive_load : (i : ℕ) → IsLoaded (s.pc i)
  pub known : (i : ℕ) → 1 ≤ registered (s.pc i) → positive s.sem.nwaiters ≡ true
  pub queue_known : 1 ≤ waiting s → positive s.sem.nwaiters ≡ true
  pub waits : (t : ℕ) → count t s.queue + total (wakes t) n s.pc ≡ is_asleep (s.pc t)
  pub progress : 1 ≤ waiting s → pos_part s.sem.value ≤ total pending n s.pc

-- A place that neither sleeps nor is about to wake a thread nor holds the queue's lock.
abbrev pub IsPlain : Pc → Type 0
IsPlain asleep = ⊥
IsPlain (waking _) = ⊥
IsPlain checked = ⊥
IsPlain _ = Unit {0}

pub plain-wakes : (t : ℕ) (p : Pc) → IsPlain p → (wakes t p ≡ 0) × (is_asleep p ≡ 0) × (p ≢ checked)
plain-wakes t p h = ground arith

pub asleep_of : (p : Pc) → 1 ≤ is_asleep p → p ≡ asleep
asleep_of p h = ground arith

pub take_nil : take_some (pos 1) [] ≡ ([], [])
unfolding take_some
take_nil = refl

pub take_first : (t : ℕ) (rest : List ℕ) → take_some (pos 1) (t ∷ rest) ≡ (t ∷ [], rest)
unfolding take_some
take_first t [] = refl
take_first t (u ∷ rest) = refl

module _ {n initial : ℕ} {s : System} (inv : Inv n initial s) (i : ℕ) (lt : i < n) where
  -- A move of one thread that changes nothing else.
  pub to-Inv :
      (p q : Pc)
      → s.pc i ≡ p
      → IsPlain p
      → IsPlain q
      → IsLoaded q
      → (1 ≤ registered q → positive s.sem.nwaiters ≡ true)
      → (1 ≤ waiting s → (pending p ≤ pending q) ⊎ (pos_part s.sem.value ≡ 0))
      → Inv n initial (to i q s)
  to-Inv p q at plain_p plain_q is_loaded is_known is_pending = record {
    beyond = λ j h. ground (arith, inv.beyond j h);
    nonneg = inv.nonneg;
    counted = inv.counted;
    conserved = inv.conserved;
    holder = λ j e. ground (arith, inv.holder j, plain-wakes 0 q plain_q);
    locked = λ j e. ground (arith, inv.locked j, plain-wakes 0 p plain_p);
    positive_load = λ j. elim (Bool-cases (j == i)) [
      | inl e ↦ rw e is_loaded
      | inr e ↦ rw e (inv.positive_load j)
    ];
    known = λ j e. ground (arith, inv.known j);
    queue_known = inv.queue_known;
    waits = λ t. ground (
      arith,
      inv.waits t,
      plain-wakes t p plain_p,
      plain-wakes t q plain_q,
      total-update (wakes t) n s.pc i q,
    );
    progress = λ h. ground (arith, inv.progress h, is_pending h, total-update pending n s.pc i q);
  }

  fails-Inv :
      (b : Bool)
      → s.pc i ≡ trying b
      → positive s.sem.value ≡ false
      → Inv n initial (to i (after_fail b) s)
  fails-Inv true at e =
      to-Inv (trying true) entering at tt tt tt (ground (arith, inv.known i))
        (λ h. inr (ground (arith, inv.nonneg)))
  fails-Inv false at e =
      to-Inv (trying false) counting at tt tt tt (λ h. absurd (omega arith))
        (λ h. inl (ground arith))

  pub load-Inv :
      (again : Bool)
      → s.pc i ≡ trying again
      → Inv n initial (to i (after_load again s.sem.value (loaded s.sem.value)) s)
  load-Inv again at = elim (Bool-cases (positive s.sem.value)) [
    | inl e ↦
        rw (e, loaded)
          (to-Inv (trying again) (swapping again s.sem.value) at tt tt e
            (ground (arith, inv.known i)) (λ h. inl (ground arith)))
    | inr e ↦ rw (e, loaded) (fails-Inv again at e)
  ]

  pub enter-Inv :
      s.pc i ≡ entering → Inv n initial (to i (if is_zero s then yielding else trying true) s)
  enter-Inv at = elim (Bool-cases (is_zero s)) [
    | inl e ↦ rw e (
        to-Inv entering yielding at tt tt tt (ground (arith, inv.known i))
          (λ h. inl (ground arith)))
    | inr e ↦ rw e (
        to-Inv entering (trying true) at tt tt tt (ground (arith, inv.known i))
          (λ h. inl (ground arith)))
  ]

  pub look-Inv :
      s.pc i ≡ posted → Inv n initial (to i (if positive s.sem.nwaiters then taking else idle) s)
  look-Inv at = elim (Bool-cases (positive s.sem.nwaiters)) [
    | inl e ↦ rw e (to-Inv posted taking at tt tt tt (ground arith) (λ h. inl (ground arith)))
    | inr e ↦ rw e (
        to-Inv posted idle at tt tt tt (ground arith)
          (λ h. absurd (false≢true (sym e ∙ inv.queue_known h))))
  ]

  pub wait-Inv : s.pc i ≡ idle → Inv n initial (to i (trying false) s)
  wait-Inv at =
      to-Inv idle (trying false) at tt tt tt (λ h. absurd (omega arith)) (λ h. inl (ground arith))
