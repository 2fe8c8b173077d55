-- ===== src/Semaphore/Safety.antt =====
-- src/common/semaphore.c: the states that the threads of Semaphore/System can reach.
use upthread.Base.{
  ℕ, suc, ◌+◌, ◌≤◌, ◌<◌, ◌≡◌, refl, sym, ap, ◌∙◌, ◌≢◌, ◌⊎◌, inl, inr, Bool, true, false, ◌||◌,
  Option, none, some, List, [], ◌∷◌, arith, if◌then◌else◌, Option-cases, some_inj, count,
  count-le-length, count-nil, pos, eq_int, pos_part, int_max,
}
use upthread.Base.Sums.{total, total-pos, total-eq-zero}
use upthread.Semaphore.Ops.{Sem, SemStatus, success, sem_init, swap_decrement}
use upthread.Futex.Ops.{take_some}
use upthread.Semaphore.System.{
  Pc, idle, trying, swapping, counting, entering, yielding, checked, asleep, posted, taking, waking,
  System, Step, wait, load, swap, register, enter, check, sleep, post, look, pop, wake, Reach,
  start, next, swapped, took, to, is_zero,
}
use upthread.Semaphore.Invariant.{Inv, pending, wakes, wait-Inv, load-Inv, enter-Inv, look-Inv}
use upthread.Semaphore.Moves.{
  swap-Inv, register-Inv, check-Inv, sleep-Inv, post-Inv, popped-Inv, wake-Inv,
}

pub or-false : (a b : Bool) → (a || b) ≡ false → (a ≡ false) × (b ≡ false)
or-false false b e = (refl, e)
or-false true b e = absurd (ground arith)

swapped-wrapped :
    (i : ℕ) (again : Bool) (r : Bool × Sem) (s : System) → (swapped i again r s).wrapped ≡ s.wrapped
swapped-wrapped i again (true, sem) s = refl
swapped-wrapped i again (false, sem) s = refl

took-wrapped : (i : ℕ) (q : List ℕ × List ℕ) (s : System) → (took i q s).wrapped ≡ s.wrapped
took-wrapped i ([], rest) s = refl
took-wrapped i (t ∷ more, rest) s = refl

check-wrapped :
    (i : ℕ) (s : System) (b : Bool)
    → (if b then record (to i checked s) { lock = some i } else to i (trying true) s).wrapped
      ≡ s.wrapped
check-wrapped i s true = refl
check-wrapped i s false = refl

-- An addition that went past INT_MAX stays noted.
pub Step-wrapped :
    {n i : ℕ} {s s' : System} → Step n i s s' → s'.wrapped ≡ false → s.wrapped ≡ false
Step-wrapped (wait lt at) e = e
Step-wrapped (load again lt at) e = e
Step-wrapped {i = i} {s = s} (swap again value lt at) e =
    sym (swapped-wrapped i again (swap_decrement value s.sem) s) ∙ e
Step-wrapped {s = s} (register lt at) e = (or-false s.wrapped (eq_int s.sem.nwaiters int_max) e).0
Step-wrapped (enter lt at) e = e
Step-wrapped {i = i} {s = s} (check lt at free) e = sym (check-wrapped i s (is_zero s)) ∙ e
Step-wrapped (sleep lt at) e = e
Step-wrapped {s = s} (post lt at) e = (or-false s.wrapped (eq_int s.sem.value int_max) e).0
Step-wrapped (look lt at) e = e
Step-wrapped {i = i} {s = s} (pop lt at free) e =
    sym (took-wrapped i (take_some (pos 1) s.queue) s) ∙ e
Step-wrapped (wake t lt at) e = e

-- A step after which no addition has gone past INT_MAX keeps the invariant.
pub Step-Inv :
    {n initial i : ℕ} {s s' : System}
    → Step n i s s'
    → s'.wrapped ≡ false
    → Inv n initial s
    → Inv n initial s'
Step-Inv {i = i} (wait lt at) calm inv = wait-Inv inv i lt at
Step-Inv {i = i} (load again lt at) calm inv = load-Inv inv i lt again at
Step-Inv {i = i} (swap again value lt at) calm inv = swap-Inv inv i lt again value at
Step-Inv {i = i} {s = s} (register lt at) calm inv =
    register-Inv inv i lt _ at (or-false s.wrapped (eq_int s.sem.nwaiters int_max) calm).1
Step-Inv {i = i} (enter lt at) calm inv = enter-Inv inv i lt at
Step-Inv {i = i} (check lt at free) calm inv = check-Inv inv i lt at free
Step-Inv {i = i} (sleep lt at) calm inv = sleep-Inv inv i lt at
Step-Inv {i = i} {s = s} (post lt at) calm inv =
    post-Inv inv i lt _ at (or-false s.wrapped (eq_int s.sem.value int_max) calm).1
Step-Inv {i = i} (look lt at) calm inv = look-Inv inv i lt at
Step-Inv {i = i} {s = s} (pop lt at free) calm inv = popped-Inv inv i lt s.queue at free refl
Step-Inv {i = i} (wake t lt at) calm inv = wake-Inv inv i lt t at

-- `upthread_sem_init` refuses a negative count only, and else stores it.
pub sem_init-value :
    (garbage sem : Sem) (initial : ℕ)
    → sem_init (some garbage) (pos initial) ≡ (success, some sem)
    → (sem.value ≡ pos initial) × (sem.nwaiters ≡ pos 0)
unfolding sem_init
sem_init-value garbage sem initial e =
    let f = some_inj (ap (λ (r : SemStatus × Option Sem). r.1) e) in
    (sym (ap (λ (x : Sem). x.value) f), sym (ap (λ (x : Sem). x.nwaiters) f))

init-Inv :
    (n initial : ℕ) (sem : Sem)
    → sem.value ≡ pos initial
    → sem.nwaiters ≡ pos 0
    → Inv n initial (record {
      sem = sem;
      queue = [];
      lock = none;
      pc = λ _. idle;
      taken = 0;
      given = 0;
      wrapped = false;
    })
init-Inv n initial sem ev ew = record {
  beyond = λ i h. refl;
  nonneg = ground arith;
  counted = ground arith;
  conserved = ground arith;
  holder = λ i e. ground arith;
  locked = λ i e. ground arith;
  positive_load = λ i. tt;
  known = λ i h. absurd (omega arith);
  queue_known = λ h. absurd (omega arith);
  waits = λ t. omega (arith, count-nil t, total-eq-zero (wakes t) n (λ _. idle) (λ i. refl));
  progress = λ h. absurd (omega arith);
}

pub Reach-Inv :
    {n initial : ℕ} {s : System} → Reach n (pos initial) s → s.wrapped ≡ false → Inv n initial s
Reach-Inv {n} {initial} (start garbage sem e) calm =
    let (ev, ew) = sem_init-value garbage sem initial e in init-Inv n initial sem ev ew
Reach-Inv (next r st) calm = Step-Inv st calm (Reach-Inv r (Step-wrapped st calm))

-- As long as no addition has gone past INT_MAX, the value is not negative, and every unit of the
-- count and of the posts is either still there or was taken by one wait.
pub units_conserved :
    {n initial : ℕ} {s : System}
    → Reach n (pos initial) s
    → s.wrapped ≡ false
    → (v : ℕ) × (s.sem.value ≡ pos v) × (v + s.taken ≡ initial + s.given)
units_conserved {s = s} r calm =
    let inv = Reach-Inv r calm in (pos_part s.sem.value, inv.nonneg, inv.conserved)

-- As long as no addition has gone past INT_MAX, no wake-up is lost: while threads wait in the queue,
-- there are at least as many posts and woken threads under way as the value has units.
pub sem_no_lost_wakeup :
    {n initial : ℕ} {s : System}
    → Reach n (pos initial) s
    → s.wrapped ≡ false
    → (t : ℕ) → 1 ≤ count t s.queue
    → pos_part s.sem.value ≤ total pending n s.pc
sem_no_lost_wakeup {s = s} r calm t h =
    let inv = Reach-Inv r calm in inv.progress (omega (arith, count-le-length t s.queue))

-- A thread that is under way can take a step, or waits for the queue's lock.
pending-Step :
    {n : ℕ} (s : System) (i : ℕ) (p : Pc)
    → i < n
    → s.pc i ≡ p
    → 0 < pending p
    → ((s' : System) × Step n i s s') ⊎ ((j : ℕ) × (s.lock ≡ some j))
pending-Step s i posted lt at h = inl (_, look lt at)
pending-Step s i taking lt at h = elim (Option-cases s.lock) [
  | inl free ↦ inl (_, pop lt at free)
  | inr held ↦ inr held
]
pending-Step s i (waking t) lt at h = inl (_, wake t lt at)
pending-Step s i (trying true) lt at h = inl (_, load true lt at)
pending-Step s i (swapping true v) lt at h = inl (_, swap true v lt at)
pending-Step s i (trying false) lt at h = absurd (omega arith)
pending-Step s i (swapping false v) lt at h = absurd (omega arith)
pending-Step s i idle lt at h = absurd (omega arith)
pending-Step s i counting lt at h = absurd (omega arith)
pending-Step s i entering lt at h = absurd (omega arith)
pending-Step s i yielding lt at h = absurd (omega arith)
pending-Step s i checked lt at h = absurd (omega arith)
pending-Step s i asleep lt at h = absurd (omega arith)

-- As long as no addition has gone past INT_MAX: while the value is positive, a thread that waits in
-- the queue does not wait alone; another thread, which is in a wait or a post and not asleep, can
-- take a step.
pub sem_no_deadlock :
    {n initial v : ℕ} {s : System}
    → Reach n (pos initial) s
    → s.wrapped ≡ false
    → (t : ℕ) → 1 ≤ count t s.queue
    → s.sem.value ≡ pos (suc v)
    → (i : ℕ) × (s.pc i ≢ asleep) × (s.pc i ≢ idle) × ((s' : System) × Step n i s s')
sem_no_deadlock {n} {initial} {s = s} r calm t h e =
    let inv = Reach-Inv r calm in
    let (i, below, way) =
      total-pos pending n s.pc (ground (arith, sem_no_lost_wakeup r calm t h)) in
    elim (pending-Step s i (s.pc i) below refl way) [
      | inl st ↦ (i, ground arith, ground arith, st)
      | inr (j, held) ↦
          let at = inv.locked j held in
          (j, ground arith, ground arith, (_, sleep (ground (arith, inv.beyond j)) at))
    ]
