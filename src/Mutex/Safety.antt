-- ===== src/Mutex/Safety.antt =====
-- src/common/mutex.c: the states that the threads of Mutex/System can reach.
use upthread.Base.{
  ℕ, suc, ◌≤◌, ◌<◌, ◌≡◌, refl, ap, ◌∙◌, ◌≢◌, ◌⊎◌, inl, inr, none, some, arith, Option-cases,
  count-le-length, pos,
}
use upthread.Base.Sums.{total, total-pos, total_mono}
use upthread.Mutex.Ops.{success, ebusy, take, mutex_trylock}
use upthread.Mutex.System.{
  Pc, idle, parked, woken, holding, waking, System, Step, retry, unlock, wake, Reach,
}
use upthread.Mutex.Invariant.{held, wakes, under_way, Inv}
use upthread.Mutex.Steps.{Reach-Inv}

-- Two threads never hold the mutex together, and what is held is locked as often as its holder
-- locked it.
pub mutual_exclusion :
    {n k l : ℕ} {s : System}
    → Reach n s
    → (i j : ℕ) → s.pc i ≡ holding k
    → s.pc j ≡ holding l
    → (i ≡ j) × (s.mutex.locked ≡ pos (suc k)) × (s.mutex.owner ≡ some i)
mutual_exclusion r i j ei ej =
    let inv = Reach-Inv r in ground (arith, inv.owns i, inv.owns j, inv.owned i)

wakes-under_way : (t : ℕ) (p : Pc) → wakes t p ≤ under_way p
wakes-under_way t p = ground arith

some_under_way :
    {n : ℕ} {s : System}
    → Inv n s.mutex s.pc
    → (t : ℕ) → s.pc t ≡ parked
    → s.mutex.owner ≡ none
    → 1 ≤ total under_way n s.pc
some_under_way {n} {s} inv t at free = ground (
  arith,
  inv.waits t,
  inv.unowned free,
  inv.progress,
  count-le-length t s.mutex.queue,
  total_mono (wakes t) under_way (wakes-under_way t) n s.pc,
)

way_of : (p : Pc) → 0 < under_way p → (p ≡ woken) ⊎ ((u : ℕ) × (p ≡ waking u))
way_of woken h = inl refl
way_of (waking u) h = inr (u, refl)
way_of idle h = absurd (omega arith)
way_of parked h = absurd (omega arith)
way_of (holding k) h = absurd (omega arith)

-- No wake-up is lost: while a thread is blocked on a free mutex, a thread is under way that will
-- try for it or is about to make such a thread runnable.
pub mutex_no_lost_wakeup :
    {n : ℕ} {s : System}
    → Reach n s
    → (t : ℕ) → s.pc t ≡ parked
    → s.mutex.owner ≡ none
    → (i : ℕ) × (i < n) × ((s.pc i ≡ woken) ⊎ ((u : ℕ) × (s.pc i ≡ waking u)))
mutex_no_lost_wakeup {n} {s} r t at free =
    let inv = Reach-Inv r in
    let (i, below, some_way) = total-pos under_way n s.pc (some_under_way inv t at free) in
    (i, below, way_of (s.pc i) some_way)

holding_of : (p : Pc) → 1 ≤ held p → (k : ℕ) × (p ≡ holding k)
holding_of (holding k) h = (k, refl)
holding_of idle h = absurd (omega arith)
holding_of parked h = absurd (omega arith)
holding_of woken h = absurd (omega arith)
holding_of (waking u) h = absurd (omega arith)

-- Nobody waits for ever by itself: a blocked thread has another thread, which holds the mutex or
-- is under way, that can take a step.
pub mutex_no_deadlock :
    {n : ℕ} {s : System}
    → Reach n s
    → (t : ℕ) → s.pc t ≡ parked
    → (i : ℕ) × (i ≢ t) × (s.pc i ≢ idle) × ((s' : System) × Step n i s s')
mutex_no_deadlock {n} {s} r t at = elim (Option-cases s.mutex.owner) [
  | inl free ↦
      let (i, below, way) = mutex_no_lost_wakeup r t at free in
      elim way [
        | inl w ↦ (i, apart i (ground arith), ground arith, (_, retry below w))
        | inr (u, w) ↦ (i, apart i (ground arith), ground arith, (_, wake u below w))
      ]
  | inr (i, own) ↦
      let inv = Reach-Inv r in
      let (k, e) = holding_of (s.pc i) (inv.owned i own).1 in
      (i, apart i (ground arith), ground arith, (_, unlock k (ground (arith, inv.beyond i)) e))
]
  where
    apart : (i : ℕ) → s.pc i ≢ parked → i ≢ t
    apart i ne e = ne (ap s.pc e ∙ at)

-- `upthread_mutex_trylock` by a thread that does not hold the mutex fails exactly when another
-- thread holds it, and then changes nothing.
trylock_lem :
    {n : ℕ} {s : System}
    → Reach n s
    → (i : ℕ) → s.pc i ≡ idle
    → ((s.mutex.owner ≡ none) × (mutex_trylock i s.mutex ≡ (success, take i s.mutex)))
      ⊎ ((j k : ℕ) × (s.pc j ≡ holding k) × (mutex_trylock i s.mutex ≡ (ebusy, s.mutex)))
unfolding mutex_trylock
trylock_lem {n} {s} r i at = elim (Option-cases s.mutex.owner) [
  | inl free ↦ inl (free, ground (arith, inv.unowned free))
  | inr (j, own) ↦
      let (k, e) = holding_of (s.pc j) (inv.owned j own).1 in
      inr (j, k, e, ground (arith, inv.owned j own))
]
  where
    inv : Inv n s.mutex s.pc
    inv = Reach-Inv r
