-- ===== src/Mutex/Steps.antt =====
-- src/common/mutex.c: the steps of Mutex/System and the invariant.
use upthread.Base.{
  ℕ, zero, suc, ◌<◌, ◌≡◌, refl, sym, ap, ◌≢◌, ◌⊎◌, inl, inr, true, false, Option, none, some, List,
  [], ◌∷◌, arith, ==_refl, Bool-cases, some_inj, length, pop_head, count-nil, pos, decr, nonzero,
}
use upthread.Base.Sums.{update, total-eq-zero, update_self}
use upthread.Mutex.Ops.{
  Mutex, MutexAttr, Status, success, acquired, asleep, take, enqueue, mutex_lock, lock_round,
  mutex_trylock, mutex_unlock, is_relock, is_recursive, mutex_init,
}
use upthread.Mutex.System.{
  Pc, idle, woken, holding, System, Step, lock, relock, trylock, retrylock, retry, unlock, wake,
  Reach, start, next, after_lock, after_try, after_unlock,
}
use upthread.Mutex.Invariant.{
  held, wakes, Inv, take-Inv, relock-Inv, park-Inv, unlock_inner-Inv, unlock_idle-Inv,
  unlock_next-Inv, wake-Inv,
}

-- What a thread that does not own the mutex gets from a round of lock.
round_cases :
    (i : ℕ) (m : Mutex)
    → ((m.locked ≡ pos 0) × (lock_round i m ≡ (acquired, take i m)))
      ⊎ ((nonzero m.locked ≡ true) × (lock_round i m ≡ (asleep, enqueue i m)))
unfolding lock_round
round_cases i m = elim (Bool-cases (nonzero m.locked)) [
  | inl busy ↦ inr (busy, ground arith)
  | inr free ↦ inl (ground arith, ground arith)
]

lock-round : (i : ℕ) (m : Mutex) → m.owner ≢ some i → mutex_lock i m ≡ lock_round i m
unfolding mutex_lock
lock-round i m ne = ground arith

unlock_inner :
    (k : ℕ) (m : Mutex)
    → m.locked ≡ pos (suc (suc k))
    → mutex_unlock m ≡ (none, record m { locked = decr m.locked })
unfolding mutex_unlock
unlock_inner k m e = ground arith

unlock_last :
    (q : List ℕ) (m : Mutex)
    → m.locked ≡ pos 1
    → m.queue ≡ q
    → mutex_unlock m ≡ (
        let (first, rest) = pop_head q in
        (first, record m { locked = pos 0; queue = rest; owner = none }))
unfolding mutex_unlock
unlock_last [] m e eq = ground arith
unlock_last (t ∷ rest) m e eq = ground arith

module _ {n : ℕ} {s : System} (inv : Inv n s.mutex s.pc) where
  not_owner : (i : ℕ) → held (s.pc i) ≡ 0 → s.mutex.owner ≢ some i
  not_owner i h e = ground (arith, inv.owned i)

  -- A round of lock by a thread that neither holds the mutex nor waits.
  round-Inv :
      (i : ℕ)
      → i < n
      → (s.pc i ≡ idle) ⊎ (s.pc i ≡ woken)
      → (let (r, m) = lock_round i s.mutex in Inv n m (update s.pc i (after_lock 0 r)))
  round-Inv i lt at = elim (round_cases i s.mutex) [
    | inl (free, e) ↦ rw e (take-Inv inv i lt at free)
    | inr (busy, e) ↦ rw e (park-Inv inv i lt at busy)
  ]

  relocked-Inv :
      (i k : ℕ)
      → i < n
      → s.pc i ≡ holding k
      → is_recursive s.mutex ≡ true
      → (let (r, m) = mutex_lock i s.mutex in Inv n m (update s.pc i (after_lock (suc k) r)))
  unfolding mutex_lock
  relocked-Inv i k lt at rec =
      let e : is_relock i s.mutex ≡ true = ground (arith, inv.owns i, ==_refl i) in
      rw (e, mutex_lock) (relock-Inv inv i lt k at)

  released-Inv :
      (q : List ℕ) (i : ℕ)
      → i < n
      → s.pc i ≡ holding 0
      → s.mutex.queue ≡ q
      → (let (t, m) = mutex_unlock s.mutex in Inv n m (update s.pc i (after_unlock 0 t)))
  released-Inv [] i lt at e =
      rw (unlock_last [] s.mutex (ground (arith, inv.owned i, inv.owns i)) e)
        (unlock_idle-Inv inv i lt at e)
  released-Inv (t ∷ rest) i lt at e =
      rw (unlock_last (t ∷ rest) s.mutex (ground (arith, inv.owned i, inv.owns i)) e)
        (unlock_next-Inv inv i lt t rest at e)

  unlocked-Inv :
      (i k : ℕ)
      → i < n
      → s.pc i ≡ holding k
      → (let (t, m) = mutex_unlock s.mutex in Inv n m (update s.pc i (after_unlock k t)))
  unlocked-Inv i zero lt at = released-Inv s.mutex.queue i lt at refl
  unlocked-Inv i (suc k) lt at =
      rw (unlock_inner k s.mutex (ground (arith, inv.owned i, inv.owns i)))
        (unlock_inner-Inv inv i lt k at)

  same-Inv : (i : ℕ) (p : Pc) → s.pc i ≡ p → Inv n s.mutex (update s.pc i p)
  same-Inv i p at = rw (update_self s.pc i p at) inv

  tried-Inv :
      (i : ℕ)
      → i < n
      → s.pc i ≡ idle
      → (let (r, m) = mutex_trylock i s.mutex in Inv n m (update s.pc i (after_try idle 0 r)))
  unfolding mutex_trylock
  tried-Inv i lt at =
      let e : is_relock i s.mutex ≡ false = ground (arith, inv.owned i) in
      elim (Bool-cases (nonzero s.mutex.locked)) [
        | inl busy ↦ rw (e, busy, mutex_trylock) (same-Inv i idle at)
        | inr free ↦ rw (e, free, mutex_trylock) (take-Inv inv i lt (inl at) (ground arith))
      ]

  retried-Inv :
      (i k : ℕ)
      → i < n
      → s.pc i ≡ holding k
      → (let (r, m) = mutex_trylock i s.mutex in
          Inv n m (update s.pc i (after_try (holding k) (suc k) r)))
  unfolding mutex_trylock
  retried-Inv i k lt at = elim (Bool-cases (is_relock i s.mutex)) [
    | inl e ↦ rw (e, mutex_trylock) (relock-Inv inv i lt k at)
    | inr e ↦
        let busy : nonzero s.mutex.locked ≡ true = ground (arith, inv.owned i, inv.owns i) in
        rw (e, busy, mutex_trylock) (same-Inv i (holding k) at)
  ]

-- Every step keeps the invariant.
pub Step-Inv : {n i : ℕ} {s s' : System} → Step n i s s' → Inv n s.mutex s.pc → Inv n s'.mutex s'.pc
Step-Inv {i = i} {s = s} (lock lt at) inv =
    rw (lock-round i s.mutex (not_owner inv i (ground arith))) (round-Inv inv i lt (inl at))
Step-Inv {i = i} (relock k lt at rec) inv = relocked-Inv inv i k lt at rec
Step-Inv {i = i} (trylock lt at) inv = tried-Inv inv i lt at
Step-Inv {i = i} (retrylock k lt at) inv = retried-Inv inv i k lt at
Step-Inv {i = i} (retry lt at) inv = round-Inv inv i lt (inr at)
Step-Inv {i = i} (unlock k lt at) inv = unlocked-Inv inv i k lt at
Step-Inv {i = i} (wake t lt at) inv = wake-Inv inv i lt t at

-- `upthread_mutex_init` leaves the mutex free, with nobody in its queue.
mutex_init-free :
    (garbage m : Mutex) (attr : Option MutexAttr)
    → mutex_init (some garbage) attr ≡ (success, some m)
    → (m.queue ≡ []) × (m.locked ≡ pos 0) × (m.owner ≡ none)
unfolding mutex_init
mutex_init-free garbage m attr e =
    let f = some_inj (ap (λ (r : Status × Option Mutex). r.1) e) in
    (
      sym (ap (λ (x : Mutex). x.queue) f),
      sym (ap (λ (x : Mutex). x.locked) f),
      sym (ap (λ (x : Mutex). x.owner) f),
    )

init-Inv :
    (n : ℕ) (m : Mutex) → m.queue ≡ [] → m.locked ≡ pos 0 → m.owner ≡ none → Inv n m (λ _. idle)
init-Inv n m eq el eo = record {
  beyond = λ i h. refl;
  unowned = λ e. el;
  owned = λ i e. ground arith;
  owns = λ i h. absurd (omega arith);
  waits =
      λ t. rw eq (omega (arith, count-nil t, total-eq-zero (wakes t) n (λ _. idle) (λ i. refl)));
  progress = λ e h. absurd (omega (arith, ap length eq));
}

pub Reach-Inv : {n : ℕ} {s : System} → Reach n s → Inv n s.mutex s.pc
Reach-Inv {n} (start garbage m attr e) =
    let (eq, el, eo) = mutex_init-free garbage m attr e in init-Inv n m eq el eo
Reach-Inv (next r st) = Step-Inv st (Reach-Inv r)
