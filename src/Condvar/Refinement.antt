-- ===== src/Condvar/Refinement.antt =====
-- src/common/condvar.c and mutex.c: the threads of Condvar/System as users of the mutex alone.
use upthread.Base.{
  ℕ, ◌≡◌, refl, sym, ap, ◌∙◌, fun_ext, subst, Bool, true, false, Option, none, some, arith,
  pop_head, ◌<◌,
}
use upthread.Base.Sums.{update}
use upthread.Mutex.Ops.{Mutex, Locking, acquired, asleep, mutex_lock, lock_round, mutex_unlock}
use upthread.Mutex.System as MutexSystem
use upthread.Condvar.System.{
  Pc, idle, woken, entering, releasing, leaving, sleeping, relocking, signalling, sweeping, rousing,
  System, after_lock, after_unlock, after_release, back, after_rouse, after_take, Step, lock, retry,
  unlock, wake, wait, queues, releases, hands, leaves, signal, signals, broadcast, sweeps, rouses,
  held_pc, mutex_pc, view,
}

-- What the mutex sees of all threads.
abbrev seen_pc : (ℕ → Pc) → ℕ → MutexSystem.Pc
seen_pc f j = mutex_pc (f j)

pc_update :
    (f : ℕ → Pc) (i : ℕ) (p : Pc) → update (seen_pc f) i (mutex_pc p) ≡ seen_pc (update f i p)
pc_update f i p = fun_ext (λ j. ground arith)

-- A move that the mutex does not see.
pc_same :
    (f : ℕ → Pc) (i : ℕ) (p : Pc) → mutex_pc (f i) ≡ mutex_pc p → seen_pc f ≡ seen_pc (update f i p)
pc_same f i p e = fun_ext (λ j. ground arith)

-- The mutex with what it sees of the threads.
abbrev Seen : ℕ → Mutex → (ℕ → Pc) → Type 0
Seen n m f = MutexSystem.Reach n (record { mutex = m; pc = seen_pc f })

module _ (n i : ℕ) (s : System) (r : MutexSystem.Reach n (view s)) where
  same-Seen : (p : Pc) → mutex_pc (s.pc i) ≡ mutex_pc p → Seen n s.mutex (update s.pc i p)
  same-Seen p e =
      subst (λ f. MutexSystem.Reach n (record { mutex = s.mutex; pc = f })) (pc_same s.pc i p e) r

  -- A section of the mutex, from what the mutex sees of it.
  move-Seen :
      (p : Pc) (m : Mutex) (q : MutexSystem.Pc)
      → q ≡ mutex_pc p
      → MutexSystem.Reach n (MutexSystem.move i q m (view s))
      → Seen n m (update s.pc i p)
  move-Seen p m q e h =
      subst (λ f. MutexSystem.Reach n (record { mutex = m; pc = f })) (pc_update s.pc i p)
        (subst (λ x. MutexSystem.Reach n (MutexSystem.move i x m (view s))) e h)

  -- `uthread_runnable` of a thread that is blocked on the mutex.
  wake-Seen :
      (t : ℕ) (p : Pc)
      → mutex_pc p ≡ MutexSystem.idle
      → MutexSystem.Reach n (record (view s) {
        pc = update (update (seen_pc s.pc) t MutexSystem.woken) i MutexSystem.idle;
      })
      → Seen n s.mutex (update (update s.pc t woken) i p)
  wake-Seen t p e h =
      subst (λ f. MutexSystem.Reach n (record { mutex = s.mutex; pc = f }))
        (fun_ext (λ j. ground arith)) h

lock_pc : (r : Locking) → MutexSystem.after_lock 0 r ≡ mutex_pc (after_lock r)
lock_pc acquired = refl
lock_pc asleep = refl

unlock_pc : (o : Option ℕ) → MutexSystem.after_unlock 0 o ≡ mutex_pc (after_unlock o)
unlock_pc none = refl
unlock_pc (some t) = refl

release_pc : (o : Option ℕ) → MutexSystem.after_unlock 0 o ≡ mutex_pc (after_release o)
release_pc none = refl
release_pc (some t) = refl

back_pc : (held : Bool) → mutex_pc (back held) ≡ held_pc held
back_pc true = refl
back_pc false = refl

take_pc : (held more : Bool) (o : Option ℕ) → mutex_pc (after_take held more o) ≡ held_pc held
take_pc held more none = back_pc held
take_pc held more (some t) = refl

rouse_pc : (held more : Bool) → mutex_pc (after_rouse held more) ≡ held_pc held
rouse_pc held true = refl
rouse_pc held false = back_pc held

-- `rouse` of a thread that sleeps on the condition variable.
rouse_view :
    (f : ℕ → Pc) (i t : ℕ) (p : Pc)
    → mutex_pc (f t) ≡ MutexSystem.idle
    → mutex_pc (f i) ≡ mutex_pc p
    → seen_pc f ≡ seen_pc (update (update f t relocking) i p)
rouse_view f i t p e e' =
    pc_same f t relocking e
    ∙ pc_same (update f t relocking) i p
        (ap (λ (g : ℕ → MutexSystem.Pc). g i) (sym (pc_same f t relocking e)) ∙ e')

pub Step-view :
    {n i : ℕ} {s s' : System}
    → ((held more : Bool) (t : ℕ) → i < n → s.pc i ≡ rousing held more t → s.pc t ≡ sleeping)
    → Step n i s s'
    → MutexSystem.Reach n (view s)
    → MutexSystem.Reach n (view s')
Step-view {n} {i} {s} asl (lock lt at) r =
    let (o, m) = mutex_lock i s.mutex in
    move-Seen n i s r (after_lock o) m _ (lock_pc o)
      (MutexSystem.next r (MutexSystem.lock lt (ground arith)))
Step-view {n} {i} {s} asl (retry lt at) r =
    let (o, m) = lock_round i s.mutex in
    move-Seen n i s r (after_lock o) m _ (lock_pc o)
      (MutexSystem.next r (MutexSystem.retry lt (ap mutex_pc at)))
Step-view {n} {i} {s} asl (unlock lt at) r =
    let (o, m) = mutex_unlock s.mutex in
    move-Seen n i s r (after_unlock o) m _ (unlock_pc o)
      (MutexSystem.next r (MutexSystem.unlock 0 lt (ap mutex_pc at)))
Step-view {n} {i} {s} asl (wake t lt at) r =
    wake-Seen n i s r t idle refl (MutexSystem.next r (MutexSystem.wake t lt (ap mutex_pc at)))
Step-view {n} {i} {s} asl (wait lt at) r = same-Seen n i s r entering (ap mutex_pc at)
Step-view {n} {i} {s} asl (queues lt at free) r = same-Seen n i s r releasing (ap mutex_pc at)
Step-view {n} {i} {s} asl (releases lt at armed) r =
    let (o, m) = mutex_unlock s.mutex in
    move-Seen n i s r (after_release o) m _ (release_pc o)
      (MutexSystem.next r (MutexSystem.unlock 0 lt (ap mutex_pc at)))
Step-view {n} {i} {s} asl (hands t lt at) r =
    wake-Seen n i s r t leaving refl (MutexSystem.next r (MutexSystem.wake t lt (ap mutex_pc at)))
Step-view {n} {i} {s} asl (leaves lt at) r = same-Seen n i s r sleeping (ap mutex_pc at)
Step-view {n} {i} {s} asl (signal held lt at) r =
    same-Seen n i s r (signalling held) (ap mutex_pc at ∙ back_pc held)
Step-view {n} {i} {s} asl (signals held lt at free) r =
    let first = (pop_head s.cond.queue).0 in
    same-Seen n i s r (after_take held false first)
      (ap mutex_pc at ∙ sym (take_pc held false first))
Step-view {n} {i} {s} asl (broadcast held lt at) r =
    same-Seen n i s r (sweeping held) (ap mutex_pc at ∙ back_pc held)
Step-view {n} {i} {s} asl (sweeps held lt at free) r =
    let first = (pop_head s.cond.queue).0 in
    same-Seen n i s r (after_take held true first) (ap mutex_pc at ∙ sym (take_pc held true first))
Step-view {n} {i} {s} asl (rouses held more t lt at) r =
    subst (λ f. MutexSystem.Reach n (record { mutex = s.mutex; pc = f }))
      (rouse_view s.pc i t (after_rouse held more) (ap mutex_pc (asl held more t lt at))
        (ap mutex_pc at ∙ sym (rouse_pc held more)))
      r
