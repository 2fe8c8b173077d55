-- ===== src/Semaphore/Refinement.antt =====
-- src/common/semaphore.c: the threads of Semaphore/System as users of a counter, each wait and each post
-- in one step.
use upthread.Base.{
  ℕ, suc, ◌<◌, ◌≡◌, refl, sym, ap, ◌∙◌, inl, inr, Bool, true, false, some, List, [], ◌∷◌, arith,
  if◌then◌else◌, Bool-cases, ℤ, pos, positive, eq_int, pos_part, eq_int→eq, int_max,
  fetch_and_add-incr,
}
use upthread.Base.Sums.{update}
use upthread.Semaphore.Ops.{
  Decrement, returns, swaps, loaded, swap_decrement, count_waiter, add_value,
}
use upthread.Semaphore.System.{
  Pc, idle, trying, swapping, entering, yielding, checked, asleep, posted, taking, waking, System,
  Step, wait, load, swap, register, enter, check, sleep, post, look, pop, wake, Reach, start, next,
  to, swapped, took, is_zero, after_load,
}
use upthread.Futex.Ops.{take_some}
use upthread.Semaphore.Invariant.{Inv}
use upthread.Semaphore.Moves.{waking-asleep}
use upthread.Semaphore.Safety.{Reach-Inv, sem_init-value, or-false, Step-wrapped}

-- What a thread does with an abstract semaphore.
pub data Phase : Type 0 where
  free waits posts : Phase

pub record Counting : Type 0 where
  pub value : ℕ
  pub phase : ℕ → Phase

abbrev pub Becomes : ℕ → Phase → Counting → Counting → Type 0
Becomes i p a a' = (j : ℕ) → a'.phase j ≡ update a.phase i p j

-- What thread `i` may do: a wait is granted in one step that takes one unit, and not while there is
-- none; a post adds one in one step.
pub data CountStep (i : ℕ) (a a' : Counting) : Type 0 where
  asks : a.phase i ≡ free → a'.value ≡ a.value → Becomes i waits a a' → CountStep i a a'
  granted : a.phase i ≡ waits → a.value ≡ suc a'.value → Becomes i free a a' → CountStep i a a'
  adds : a.phase i ≡ free → a'.value ≡ suc a.value → Becomes i posts a a' → CountStep i a a'
  done : a.phase i ≡ posts → a'.value ≡ a.value → Becomes i free a a' → CountStep i a a'
  stays : a'.value ≡ a.value → ((j : ℕ) → a'.phase j ≡ a.phase j) → CountStep i a a'

pub data CountReach (initial : ℕ) : Counting → Type 0 where
  begins : {a : Counting} → a.value ≡ initial → ((j : ℕ) → a.phase j ≡ free) → CountReach initial a
  goes : {i : ℕ} {a b : Counting} → CountReach initial b → CountStep i b a → CountReach initial a

-- The view that forgets the accesses, the queue and the waiters.
abbrev pub phase_of : Pc → Phase
phase_of idle = free
phase_of posted = posts
phase_of taking = posts
phase_of (waking t) = posts
phase_of _ = waits

abbrev pub view : System → Counting
view s = record { value = pos_part s.sem.value; phase = λ j. phase_of (s.pc j) }

-- A move of one thread.
moved :
    (i : ℕ) (p : Pc) (s : System) (j : ℕ)
    → phase_of (update s.pc i p j) ≡ update (λ k. phase_of (s.pc k)) i (phase_of p) j
moved i p s j = ground arith

kept :
    (i : ℕ) (p : Pc) (s : System)
    → phase_of (s.pc i) ≡ phase_of p
    → (j : ℕ) → phase_of (update s.pc i p j) ≡ phase_of (s.pc j)
kept i p s e j = ground arith

swap-refines :
    {n initial i : ℕ} {s : System} (again : Bool) (value : ℤ)
    → Inv n initial s
    → s.pc i ≡ swapping again value
    → CountStep i (view s) (view (swapped i again (swap_decrement value s.sem) s))
unfolding swap_decrement
swap-refines {i = i} {s = s} again value inv at = elim (Bool-cases (eq_int s.sem.value value)) [
  | inl e ↦ rw e (
      granted (ground arith)
        (ground (arith, inv.nonneg, inv.positive_load i, eq_int→eq s.sem.value value e))
        (moved i idle s))
  | inr e ↦ rw e (stays refl (kept i (trying again) s (ground arith)))
]

load-phase : (again : Bool) (v : ℤ) (d : Decrement) → phase_of (after_load again v d) ≡ waits
load-phase true v returns = refl
load-phase false v returns = refl
load-phase again v swaps = refl

check-refines :
    {i : ℕ} (s : System)
    → s.pc i ≡ yielding
    → CountStep i (view s) (
        view
          (if is_zero s then record (to i checked s) { lock = some i } else to i (trying true) s))
check-refines {i} s at = elim (Bool-cases (is_zero s)) [
  | inl e ↦ rw e (stays refl (kept i checked s (ground arith)))
  | inr e ↦ rw e (stays refl (kept i (trying true) s (ground arith)))
]

took-refines :
    {i : ℕ} (s : System) (q : List ℕ × List ℕ)
    → s.pc i ≡ taking
    → CountStep i (view s) (view (took i q s))
took-refines {i} s ([], rest) at = done (ground arith) refl (moved i idle s)
took-refines {i} s (t ∷ more, rest) at = stays refl (kept i (waking t) s (ground arith))

wake-refines :
    {n initial i : ℕ} {s : System} (inv : Inv n initial s) (lt : i < n) (t : ℕ)
    → s.pc i ≡ waking t
    → CountStep i (view s) (view (record s { pc = update (update s.pc t (trying true)) i idle }))
wake-refines {i = i} inv lt t at =
    let (asleep_t, below, ne) = waking-asleep inv i lt t at in
    done (ground arith) refl (λ j. ground arith)

look-refines :
    {i : ℕ} (s : System)
    → s.pc i ≡ posted
    → CountStep i (view s) (view (to i (if positive s.sem.nwaiters then taking else idle) s))
look-refines {i} s at = elim (Bool-cases (positive s.sem.nwaiters)) [
  | inl e ↦ rw e (stays refl (kept i taking s (ground arith)))
  | inr e ↦ rw e (done (ground arith) refl (moved i idle s))
]

Step-refines :
    {n initial i : ℕ} {s s' : System}
    → Inv n initial s
    → s'.wrapped ≡ false
    → Step n i s s'
    → CountStep i (view s) (view s')
unfolding count_waiter add_value
Step-refines {i = i} {s = s} inv calm (wait lt at) =
    asks (ground arith) refl (moved i (trying false) s)
Step-refines {i = i} {s = s} inv calm (load again lt at) =
    let v = s.sem.value in
    stays refl (kept i _ s (ap phase_of at ∙ sym (load-phase again v (loaded v))))
Step-refines inv calm (swap again value lt at) = swap-refines again value inv at
Step-refines {i = i} {s = s} inv calm (register lt at) =
    stays refl (kept i entering s (ground arith))
Step-refines {i = i} {s = s} inv calm (enter lt at) = stays refl (kept i _ s (ground arith))
Step-refines {s = s} inv calm (check lt at unlocked) = check-refines s at
Step-refines {i = i} {s = s} inv calm (sleep lt at) = stays refl (kept i asleep s (ground arith))
Step-refines {i = i} {s = s} inv calm (post lt at) =
    let room = (or-false s.wrapped (eq_int s.sem.value int_max) calm).1 in
    adds (ground arith) (ground (arith, inv.nonneg, fetch_and_add-incr s.sem.value room))
      (moved i posted s)
Step-refines {s = s} inv calm (look lt at) = look-refines s at
Step-refines {s = s} inv calm (pop lt at unlocked) = took-refines s (take_some (pos 1) s.queue) at
Step-refines inv calm (wake t lt at) = wake-refines inv lt t at

-- Whatever the interleaving of waits and posts on a semaphore with a first count of at least 0, as long
-- as no addition has gone past INT_MAX, the value and what each thread is doing are reached by a run
-- of an abstract semaphore, which grants a wait in one step that takes a unit, adds one in one step
-- for a post, and never goes below 0.
pub sem_refines :
    {n initial : ℕ} {s : System}
    → Reach n (pos initial) s
    → s.wrapped ≡ false
    → CountReach initial (view s)
sem_refines {initial = initial} (start garbage sem e) calm =
    begins (ground (arith, (sem_init-value garbage sem initial e).0)) (λ j. refl)
sem_refines (next r st) calm =
    let before = Step-wrapped st calm in
    goes (sem_refines r before) (Step-refines (Reach-Inv r before) calm st)
