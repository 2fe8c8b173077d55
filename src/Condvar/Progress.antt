-- ===== src/Condvar/Progress.antt =====
-- src/common/condvar.c and mutex.c: what a thread of Condvar/System can count on.
use upthread.Base.{
  ℕ, ◌+◌, ◌<◌, ◌≡◌, refl, ap, ◌≢◌, ◌⊎◌, inl, inr, true, some, arith, Option-cases, count,
}
use upthread.Base.Sums.{total}
use upthread.Mutex.System as MutexSystem
use upthread.Mutex.Safety as MutexSafety
use upthread.Condvar.System.{
  Pc, idle, holding, parked, woken, waking, entering, releasing, handing, leaving, sleeping,
  relocking, signalling, sweeping, rousing, System, Step, lock, retry, unlock, wake, queues,
  releases, hands, leaves, signals, sweeps, rouses, Reach, mutex_pc, view,
}
use upthread.Condvar.Invariant.{is_inside, is_queued, rouses_it, Inv}
use upthread.Condvar.Safety.{Reach-Inv}

-- Waiting with a condition variable is use of the mutex: whatever n threads do with the two, the mutex
-- and who holds, waits for and wakes for it are reached by a run of n threads that only lock and
-- unlock the mutex.
pub cond_refines_mutex : {n : ℕ} {s : System} → Reach n s → MutexSystem.Reach n (view s)
cond_refines_mutex r = (Reach-Inv r).0

-- From before a waiting thread lets the mutex go until it is made runnable, it stands once in the
-- queue of the condition variable and nobody is about to make it runnable, or it has been taken out
-- and exactly one signal or broadcast is about to; any other thread is neither queued nor made
-- runnable by one.
pub cond_no_lost_wakeup :
    {n : ℕ} {s : System}
    → Reach n s
    → (t : ℕ) → count t s.cond.queue + total (rouses_it t) n s.pc ≡ is_queued (s.pc t)
cond_no_lost_wakeup r t = let (seen, inv) = Reach-Inv r in inv.queued t

-- In a call other than a wait that sleeps.
abbrev pub IsBusy : Pc → Type 0
IsBusy p = (p ≢ idle) × (p ≢ sleeping)

abbrev pub CanStep : ℕ → ℕ → System → Type 0
CanStep n j s = (s' : System) × Step n j s s'

-- The holder of the condition variable's lock goes on.
inside_steps :
    {n : ℕ} {s : System}
    → Inv n s
    → (j : ℕ) (p : Pc) → s.pc j ≡ p
    → is_inside p ≡ true
    → (j < n) × CanStep n j s
inside_steps {n} inv j releasing at h =
    let lt : j < n = ground (arith, inv.beyond j) in (lt, (_, releases lt at (inv.armed j at)))
inside_steps {n} inv j (handing t) at h =
    let lt : j < n = ground (arith, inv.beyond j) in (lt, (_, hands t lt at))
inside_steps {n} inv j leaving at h =
    let lt : j < n = ground (arith, inv.beyond j) in (lt, (_, leaves lt at))
inside_steps {n} inv j p at h = absurd (ground arith)

-- A thread that is neither blocked nor idle goes on, or waits for the lock.
busy_steps :
    {n : ℕ} {s : System}
    → Inv n s
    → (j : ℕ) (p : Pc) → s.pc j ≡ p
    → IsBusy p
    → p ≢ parked
    → CanStep n j s ⊎ ((k : ℕ) × (s.lock ≡ some k))
busy_steps inv j idle at (a, b) c = absurd (a refl)
busy_steps inv j sleeping at (a, b) c = absurd (b refl)
busy_steps inv j parked at (a, b) c = absurd (c refl)
busy_steps inv j holding at h c = inl (_, unlock (ground (arith, inv.beyond j)) at)
busy_steps inv j woken at h c = inl (_, retry (ground (arith, inv.beyond j)) at)
busy_steps inv j (waking t) at h c = inl (_, wake t (ground (arith, inv.beyond j)) at)
busy_steps inv j releasing at h c = inr (j, inv.inside j (ap is_inside at))
busy_steps inv j (handing t) at h c = inr (j, inv.inside j (ap is_inside at))
busy_steps inv j leaving at h c = inr (j, inv.inside j (ap is_inside at))
busy_steps inv j relocking at h c = inl (_, lock (ground (arith, inv.beyond j)) (inr at))
busy_steps inv j (rousing held more t) at h c =
    inl (_, rouses held more t (ground (arith, inv.beyond j)) at)
busy_steps {s = s} inv j entering at h c = elim (Option-cases s.lock) [
  | inl free ↦ inl (_, queues (ground (arith, inv.beyond j)) at free)
  | inr some_k ↦ inr some_k
]
busy_steps {s = s} inv j (signalling held) at h c = elim (Option-cases s.lock) [
  | inl free ↦ inl (_, signals held (ground (arith, inv.beyond j)) at free)
  | inr some_k ↦ inr some_k
]
busy_steps {s = s} inv j (sweeping held) at h c = elim (Option-cases s.lock) [
  | inl free ↦ inl (_, sweeps held (ground (arith, inv.beyond j)) at free)
  | inr some_k ↦ inr some_k
]

inside-IsBusy : (p : Pc) → is_inside p ≡ true → IsBusy p
inside-IsBusy p h = (λ e. ground arith, λ e. ground arith)

goes_on :
    {n : ℕ} {s : System}
    → Inv n s
    → (j : ℕ) → IsBusy (s.pc j)
    → s.pc j ≢ parked
    → (k : ℕ) × IsBusy (s.pc k) × CanStep n k s
goes_on {s = s} inv j busy ne = elim (busy_steps inv j (s.pc j) refl busy ne) [
  | inl st ↦ (j, busy, st)
  | inr (k, held) ↦
      let h = inv.locked k held in
      (k, inside-IsBusy (s.pc k) h, (inside_steps inv k (s.pc k) refl h).1)
]

not_parked :
    {n i : ℕ} {s s' : MutexSystem.System} → MutexSystem.Step n i s s' → s.pc i ≢ MutexSystem.parked
not_parked (MutexSystem.lock lt at) = λ e. ground arith
not_parked (MutexSystem.relock k lt at rec) = λ e. ground arith
not_parked (MutexSystem.trylock lt at) = λ e. ground arith
not_parked (MutexSystem.retrylock k lt at) = λ e. ground arith
not_parked (MutexSystem.retry lt at) = λ e. ground arith
not_parked (MutexSystem.unlock k lt at) = λ e. ground arith
not_parked (MutexSystem.wake t lt at) = λ e. ground arith

seen-IsBusy : (p : Pc) → mutex_pc p ≢ MutexSystem.idle → IsBusy p
seen-IsBusy p h = (λ e. h (ap mutex_pc e), λ e. h (ap mutex_pc e))

parked-cases : (p : Pc) → (p ≡ parked) ⊎ (p ≢ parked)
parked-cases parked = inl refl
parked-cases p = inr (λ e. ground arith)

-- While a thread holds the mutex, or is in a call and does not sleep on the condition variable, some
-- such thread can take a step.
pub cond_no_deadlock :
    {n : ℕ} {s : System}
    → Reach n s
    → (i : ℕ) → IsBusy (s.pc i)
    → (k : ℕ) × IsBusy (s.pc k) × CanStep n k s
cond_no_deadlock {n} {s} r i busy =
    let (seen, inv) = Reach-Inv r in
    elim (parked-cases (s.pc i)) [
      | inl at ↦
          let (j, ne, way, (s', st)) = MutexSafety.mutex_no_deadlock seen i (ap mutex_pc at) in
          goes_on inv j (seen-IsBusy (s.pc j) way) (λ e. not_parked st (ap mutex_pc e))
      | inr ne ↦ goes_on inv i busy ne
    ]
