-- ===== src/Condvar/Safety.antt =====
-- src/common/condvar.c and mutex.c: the states that the threads of Condvar/System can reach.
use upthread.Base.{
  ℕ, ◌<◌, ◌≡◌, refl, sym, ap, subst, ◌≢◌, inl, inr, Bool, true, false, Option, none, some, List, [],
  ◌∷◌, arith, some_inj, pop_head, count,
}
use upthread.Base.Sums.{update, total-eq-zero}
use upthread.Mutex.Ops.{
  Mutex, success, Locking, acquired, asleep, mutex_lock, lock_round, mutex_unlock, Status,
}
use upthread.Mutex.System as MutexSystem
use upthread.Mutex.Invariant as MutexInvariant
use upthread.Mutex.Steps as MutexSteps
use upthread.Condvar.Ops.{Condvar, cond_init}
use upthread.Condvar.System.{
  Pc, idle, holding, parked, woken, waking, entering, releasing, handing, leaving, relocking,
  signalling, sweeping, System, after_lock, after_unlock, after_release, back, after_take, move,
  Step, lock, retry, unlock, wake, wait, queues, releases, hands, leaves, signal, signals,
  broadcast, sweeps, rouses, Reach, start, next, mutex_pc, view,
}
use upthread.Condvar.Refinement.{Step-view}
use upthread.Condvar.Invariant.{
  is_inside, rouses_it, Inv, IsPlain, plain-Inv, inside-Inv, queue-Inv, leave-Inv, take_none-Inv,
  take_some-Inv, rousing-sleeping, rouse-Inv, back-IsPlain,
}

at-IsPlain : (p q : Pc) → q ≡ p → IsPlain p → IsPlain q
at-IsPlain p q e h = subst IsPlain (sym e) h

lock-IsPlain : (r : Locking) → IsPlain (after_lock r)
lock-IsPlain acquired = (refl, refl, λ t. refl)
lock-IsPlain asleep = (refl, refl, λ t. refl)

unlock-IsPlain : (o : Option ℕ) → IsPlain (after_unlock o)
unlock-IsPlain none = (refl, refl, λ t. refl)
unlock-IsPlain (some t) = (refl, refl, λ t. refl)

parked_of : (p : Pc) → mutex_pc p ≡ MutexSystem.parked → p ≡ parked
parked_of p e = ground arith

-- The thread that an unlock is about to make runnable is blocked on the mutex.
next-parked :
    {n i t : ℕ} (s : System)
    → MutexSystem.Reach n (view s)
    → i < n
    → mutex_pc (s.pc i) ≡ MutexSystem.waking t
    → (s.pc t ≡ parked) × (t < n) × (t ≢ i)
next-parked {i = i} {t = t} s r lt at =
    let (p, below, ne) = MutexInvariant.waking-parked (MutexSteps.Reach-Inv r) i lt t at in
    (parked_of (s.pc t) p, below, ne)

take-Inv :
    (n i : ℕ) (s : System) (held more : Bool) (q : List ℕ)
    → Inv n s
    → i < n
    → IsPlain (s.pc i)
    → s.lock ≡ none
    → s.cond.queue ≡ q
    → Inv n (
        let (first, rest) = pop_head q in
        record s {
          cond = record s.cond { queue = rest };
          pc = update s.pc i (after_take held more first);
        })
take-Inv n i s held more [] inv lt plain free e = take_none-Inv n i s inv lt held plain e
take-Inv n i s held more (t ∷ rest) inv lt plain free e =
    take_some-Inv n i s inv lt held more t rest plain free e

Step-Inv :
    {n i : ℕ} {s s' : System} → Step n i s s' → MutexSystem.Reach n (view s) → Inv n s → Inv n s'
Step-Inv {n} {i} {s} (lock lt (inl at)) r inv =
    let (o, m) = mutex_lock i s.mutex in
    plain-Inv n i s inv lt (after_lock o) m (at-IsPlain idle _ at (refl, refl, λ t. refl))
      (lock-IsPlain o)
Step-Inv {n} {i} {s} (lock lt (inr at)) r inv =
    let (o, m) = mutex_lock i s.mutex in
    plain-Inv n i s inv lt (after_lock o) m (at-IsPlain relocking _ at (refl, refl, λ t. refl))
      (lock-IsPlain o)
Step-Inv {n} {i} {s} (retry lt at) r inv =
    let (o, m) = lock_round i s.mutex in
    plain-Inv n i s inv lt (after_lock o) m (at-IsPlain woken _ at (refl, refl, λ t. refl))
      (lock-IsPlain o)
Step-Inv {n} {i} {s} (unlock lt at) r inv =
    let (o, m) = mutex_unlock s.mutex in
    plain-Inv n i s inv lt (after_unlock o) m (at-IsPlain holding _ at (refl, refl, λ t. refl))
      (unlock-IsPlain o)
Step-Inv {n} {i} {s} (wake t lt at) r inv =
    let (p, below, ne) = next-parked s r lt (ap mutex_pc at) in
    let s₁ = move t woken s.mutex s in
    let inv₁ =
      plain-Inv n t s inv below woken s.mutex (at-IsPlain parked _ p (refl, refl, λ t. refl))
        (refl, refl, λ t. refl) in
    let e : s₁.pc i ≡ waking t = ground arith in
    plain-Inv n i s₁ inv₁ lt idle s.mutex (at-IsPlain (waking t) _ e (refl, refl, λ t. refl))
      (refl, refl, λ t. refl)
Step-Inv {n} {i} {s} (wait lt at) r inv =
    plain-Inv n i s inv lt entering s.mutex (at-IsPlain holding _ at (refl, refl, λ t. refl))
      (refl, refl, λ t. refl)
Step-Inv {n} {i} {s} (queues lt at free) r inv = queue-Inv n i s inv lt at free
Step-Inv {n} {i} {s} (releases lt at armed) r inv =
    let (o, m) = mutex_unlock s.mutex in
    inside-Inv n i s inv lt (after_release o) m (ap is_inside at) (release_inside o) (release_ne o)
  where
    release_inside : (o : Option ℕ) → is_inside (after_release o) ≡ true
    release_inside none = refl
    release_inside (some t) = refl

    release_ne : (o : Option ℕ) → after_release o ≢ releasing
    release_ne none = λ e. ground arith
    release_ne (some t) = λ e. ground arith
Step-Inv {n} {i} {s} (hands t lt at) r inv =
    let (p, below, ne) = next-parked s r lt (ap mutex_pc at) in
    let s₁ = move t woken s.mutex s in
    let inv₁ =
      plain-Inv n t s inv below woken s.mutex (at-IsPlain parked _ p (refl, refl, λ t. refl))
        (refl, refl, λ t. refl) in
    let e : s₁.pc i ≡ handing t = ground arith in
    inside-Inv n i s₁ inv₁ lt leaving s.mutex (ap is_inside e) refl (λ q. ground arith)
Step-Inv {n} {i} {s} (leaves lt at) r inv = leave-Inv n i s inv lt at
Step-Inv {n} {i} {s} (signal held lt at) r inv =
    plain-Inv n i s inv lt (signalling held) s.mutex
      (at-IsPlain (back held) _ at (back-IsPlain held)) (refl, refl, λ t. refl)
Step-Inv {n} {i} {s} (signals held lt at free) r inv =
    take-Inv n i s held false s.cond.queue inv lt
      (at-IsPlain (signalling held) _ at (refl, refl, λ t. refl)) free refl
Step-Inv {n} {i} {s} (broadcast held lt at) r inv =
    plain-Inv n i s inv lt (sweeping held) s.mutex (at-IsPlain (back held) _ at (back-IsPlain held))
      (refl, refl, λ t. refl)
Step-Inv {n} {i} {s} (sweeps held lt at free) r inv =
    take-Inv n i s held true s.cond.queue inv lt
      (at-IsPlain (sweeping held) _ at (refl, refl, λ t. refl)) free refl
Step-Inv {n} {i} {s} (rouses held more t lt at) r inv = rouse-Inv n i s inv lt held more t at

init-Inv :
    (n : ℕ) (m : Mutex) (garbage c : Condvar)
    → cond_init (some garbage) ≡ (success, some c)
    → Inv n (record { mutex = m; cond = c; lock = none; pc = λ _. idle })
unfolding cond_init count
init-Inv n m garbage c e =
    let q : c.queue ≡ [] = queue_of e in
    record {
      beyond = λ i h. refl;
      inside = λ i h. absurd (ground arith);
      locked = λ i h. absurd (ground arith);
      armed = λ i h. absurd (ground arith);
      queued = λ t.
          ground (arith, ap (count t) q, total-eq-zero (rouses_it t) n (λ _. idle) (λ i. refl));
      roused = λ t h. absurd (omega (arith, total-eq-zero (rouses_it t) n (λ _. idle) (λ i. refl)));
    }
  where
    queue_of : cond_init (some garbage) ≡ (success, some c) → c.queue ≡ []
    queue_of e =
        ap (λ (x : Condvar). x.queue) (sym (some_inj (ap (λ (r : Status × Option Condvar). r.1) e)))

pub Reach-Inv : {n : ℕ} {s : System} → Reach n s → MutexSystem.Reach n (view s) × Inv n s
Reach-Inv {n} (start gm m attr gc c em ec) = (MutexSystem.start gm m attr em, init-Inv n m gc c ec)
Reach-Inv {n} (next {i = i} {s = s} r st) =
    let (seen, inv) = Reach-Inv r in
    (
      Step-view (λ held more t lt at. (rousing-sleeping n i s inv lt held more t at).0) st seen,
      Step-Inv st seen inv,
    )
