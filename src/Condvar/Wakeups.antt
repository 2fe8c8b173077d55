-- ===== src/Condvar/Wakeups.antt =====
-- src/common/condvar.c: who is in the queue and who is woken.
use upthread.Base.{
  ℕ, zero, suc, ◌<◌, ◌≡◌, refl, ap, ◌≢◌, inl, inr, Option, none, some, List, [], ◌∷◌, ◌++◌, arith,
  Option-cases, length, insert_tail,
}
use upthread.Mutex.Ops.{mutex_unlock}
use upthread.Condvar.Ops.{
  Shared, wait_section, take_first, cond_signal, broadcast_round, cond_broadcast, block,
}

-- What `upthread_mutex_unlock` makes runnable comes last.
abbrev pub then_woken : List ℕ → Option ℕ → List ℕ
then_woken q none = q
then_woken q (some t) = insert_tail q t

-- A thread that waits stands last in the queue when it has released the mutex, which is then as
-- `upthread_mutex_unlock` leaves it, and the thread that the unlock gives is woken; no other mutex
-- changes.
wait-queues :
    (self m k : ℕ) (s : Shared)
    → k ≢ m
    → (s₁ : Shared) × (wait_section self m s ≡ some s₁)
      × (s₁.cond.queue ≡ insert_tail s.cond.queue self)
      × (s₁.mutex m ≡ (mutex_unlock (s.mutex m)).1)
      × (s₁.mutex k ≡ s.mutex k)
      × (s₁.woken ≡ then_woken s.woken (mutex_unlock (s.mutex m)).0)
unfolding wait_section block
wait-queues self m k s apart = elim (Option-cases (mutex_unlock (s.mutex m)).0) [
  | inl e ↦ (_, refl, rw e refl, rw e (ground arith), rw e (ground arith), rw e refl)
  | inr (t, e) ↦ (_, refl, rw e refl, rw e (ground arith), rw e (ground arith), rw e refl)
]

abbrev pub quiet : Shared → Shared
quiet s = s

append_assoc_tail : (xs : List ℕ) (x : ℕ) (ys : List ℕ) → insert_tail xs x ++ ys ≡ xs ++ x ∷ ys
append_assoc_tail [] x ys = refl
append_assoc_tail (z ∷ xs) x ys = ap (λ l. z ∷ l) (append_assoc_tail xs x ys)

append_nil : (xs : List ℕ) → xs ++ [] ≡ xs
append_nil [] = refl
append_nil (x ∷ xs) = ap (λ l. x ∷ l) (append_nil xs)

abbrev pub all_woken : Shared → List ℕ → Shared
all_woken s q = record s { cond = record s.cond { queue = [] }; woken = s.woken ++ q }

-- While no other thread uses the condition variable, a broadcast ends after one round more than
-- there are waiters, and has woken each of them, in the order in which they came.
pub broadcast_wakes_all :
    (q : List ℕ) (fuel : ℕ) (s : Shared)
    → s.cond.queue ≡ q
    → length q < fuel
    → cond_broadcast fuel quiet s ≡ some (all_woken s q)
unfolding cond_broadcast broadcast_round take_first
broadcast_wakes_all q zero s e h = absurd (omega arith)
broadcast_wakes_all [] (suc fuel) s e h = rw (e, append_nil s.woken) refl
broadcast_wakes_all (t ∷ q) (suc fuel) s e h =
    let s₁ = record s { cond = record s.cond { queue = q }; woken = insert_tail s.woken t } in
    rw (e, broadcast_wakes_all q fuel s₁ refl (omega arith), append_assoc_tail s.woken t q) refl

-- A signal wakes the first waiter, and only it.
pub signal_wakes_first :
    (t : ℕ) (rest : List ℕ) (s : Shared)
    → s.cond.queue ≡ t ∷ rest
    → ((cond_signal s).cond.queue ≡ rest) × ((cond_signal s).woken ≡ insert_tail s.woken t)
unfolding cond_signal take_first
signal_wakes_first t rest s e = rw e (refl, refl)
