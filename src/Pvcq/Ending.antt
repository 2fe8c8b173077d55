-- ===== src/Pvcq/Ending.antt =====
-- src/pvcq/upthread.c, lines 462-590: threads of Pvcq/System join, exit and are created.
use upthread.Base.{
  ℕ, ◌<◌, ◌≡◌, refl, sym, ap, ◌∙◌, subst, ◌≢◌, inl, inr, Bool, true, false, Option, none, some,
  arith, ltb, ◌==◌, if◌then◌else◌, assert, ==_refl, Bool-cases, ◌>>=◌, bind-eq-some, some_inj,
}
use upthread.Base.Sums.{update}
use upthread.Tcb.{runnable, running, exiting}
use upthread.Pvcq.State.{VcMgmt, Pvcq, Platform, Call, to_state, with_tcb, call, uthread_cleanup}
use upthread.Pvcq.State as State
use upthread.Pvcq.Threads.{unmapped, Memory, free}
use upthread.Pvcq.Places.{move-Places}
use upthread.Pvcq.Kept.{move-Kept, stays}
use upthread.Pvcq.Slots.{Slots, IsLoose, loose, clear-Slots, wait-Slots, exiting-or_not}
use upthread.Pvcq.Moves.{Inv, same-Inv, stops}
use upthread.Pvcq.Swapping.{waiting}

pub wait-Inv :
    (m v t target : ℕ) (b : Pvcq) (c : ℕ → Option ℕ)
    → Inv m b c
    → c v ≡ some t
    → t ≢ target
    → Inv m (waiting t target b) (update c v none)
wait-Inv m v t target b c h at ne =
    let ran = h.places.runs v t at in
    let b' = waiting t target b in
    record {
      places =
          move-Places m b b' c (update c v none) h.places (λ v. refl) (λ v. refl)
            (λ u e. ground arith)
            (λ u. ground (arith, h.places.below u, h.places.below t, h.places.below target)) refl
            refl
            (λ w u e.
              let (k, out) = stops m v t w u b c h.places at e in
              (k, ground (arith, h.places.runs w u k)));
      slots =
          wait-Slots b.tcb b'.tcb t target h.slots ran ne (ground (arith, ==_refl t))
            (λ u out. ground arith) (ground (arith, ==_refl target)) (λ u out. ground arith);
      kept =
          move-Kept m b b' c (update c v none) h.kept (λ x. refl) (λ u e. ground arith)
            (λ u e. elim (Bool-cases (u == t)) [
              | inl q ↦ absurd (ground (arith, ==_refl t))
              | inr q ↦ (ground arith, λ w k. stays v t w u c at (ground arith) k)
            ]);
    }

-- The joiner of a thread that has exited is in no slot of a live one.
pub waiting-IsLoose :
    (t target : ℕ) (b : Pvcq)
    → Slots b.tcb
    → (b.tcb t).state ≡ running
    → t ≢ target
    → (b.tcb target).joiner ≡ some target
    → IsLoose (waiting t target b).tcb t
waiting-IsLoose t target b h ran ne full u live e = elim (Bool-cases (u == target)) [
  | inl q ↦ elim (exiting-or_not (b.tcb target).state) [
    | inl gone ↦ live (ground arith)
    | inr on ↦ (h.held target target on full).1 refl
  ]
  | inr q ↦ elim (Bool-cases (u == t)) [
    | inl k ↦
        let k' : u ≡ t = ground arith in
        loose b.tcb t h (λ x. ground arith) t (λ x. ground arith)
          (subst (λ y. (b.tcb y).joiner ≡ some t) k' (ground arith))
    | inr k ↦ loose b.tcb t h (λ x. ground arith) u (λ x. live (ground arith)) (ground arith)
  ]
]

pub exited-Inv :
    (m v t : ℕ) (b b' : Pvcq) (c : ℕ → Option ℕ)
    → Inv m b c
    → c v ≡ some t
    → b'.vc_mgmt ≡ b.vc_mgmt
    → b'.nr_vcores ≡ b.nr_vcores
    → b'.next_queue_id ≡ b.next_queue_id
    → (b'.tcb t).state ≡ exiting
    → ((u : ℕ) → (b'.tcb u).preferred_vcq ≡ (b.tcb u).preferred_vcq)
    → ((u : ℕ) → u ≢ t → (b'.tcb u).state ≡ (b.tcb u).state)
    → ((u : ℕ) → u ≢ t → (b'.tcb u).joiner ≡ (b.tcb u).joiner)
    → Inv m b' (update c v none)
exited-Inv m v t b b' c h at vc nr next gone pr kept slot = record {
  places =
      move-Places m b b' c (update c v none) h.places
        (λ v. ap (λ (f : ℕ → VcMgmt). (f v).tqueue) vc)
        (λ v. ap (λ (f : ℕ → VcMgmt). (f v).tqsize) vc) (λ u e. kept u (λ q. was_running u q e) ∙ e)
        (λ u. subst (λ n. n < m) (sym (pr u)) (h.places.below u)) nr next
        (λ w u e.
          let (k, out) = stops m v t w u b c h.places at e in
          (k, kept u out ∙ h.places.runs w u k));
  slots =
      clear-Slots b.tcb b'.tcb t h.slots (loose b.tcb t h.slots (λ e. ground (arith, ran)))
        (inl gone) kept slot;
  kept =
      move-Kept m b b' c (update c v none) h.kept (λ v. ap (λ (f : ℕ → VcMgmt). (f v).tqueue) vc)
        (λ u e. sym (kept u (λ q. is_gone u q (λ x. ground arith))) ∙ e)
        (λ u e.
          let ne : u ≢ t = λ q. is_gone u q (λ x. ground arith) in
          (sym (kept u ne) ∙ e, λ w k. stays v t w u c at ne k));
}
  where
    ran : (b.tcb t).state ≡ running
    ran = h.places.runs v t at

    is_gone : (u : ℕ) → u ≡ t → (b'.tcb u).state ≢ exiting → ⊥
    is_gone u q k = k (ap (λ x. (b'.tcb x).state) q ∙ gone)

    was_running : (u : ℕ) → u ≡ t → (b.tcb u).state ≡ runnable → ⊥
    was_running u q e = let x = sym ran ∙ ap (λ y. (b.tcb y).state) (sym q) ∙ e in ground arith

if-done :
    {A : Type 0} (P : Pvcq → Type 0) (b : Bool) (x y s' : Pvcq) (o : Option A)
    → (if b then some x else (o >>= λ _. some y)) ≡ some s'
    → P x
    → P y
    → P s'
if-done P true x y s' o e h k = subst P (some_inj e) h
if-done P false x y s' o e h k = let (_, _, e') = bind-eq-some o _ e in subst P (some_inj e') k

-- What `__upthread_free` may leave.
pub free-done :
    (P : Pvcq → Type 0) (p : Platform) (mem : Memory) (t : ℕ) (s s' : Pvcq)
    → free p mem t s ≡ some s'
    → P (record s { zombie_list = mem.wfl_insert t s.zombie_list })
    → P (let (base, size) = unmapped p mem (s.tcb t) in call (State.munmap base size) s)
    → P s'
unfolding free
free-done P p mem t s s' e few many =
    let (base, size) = unmapped p mem (s.tcb t) in
    if-done P (ltb (mem.wfl_size s.zombie_list) 1000) _ _ s' (assert p.debug (mem.munmap base size))
      e few many

-- `__upthread_free` changes no queue and no thread.
pub free-Inv :
    (p : Platform) (mem : Memory) (t : ℕ) (s s' : Pvcq) (m : ℕ) (c : ℕ → Option ℕ)
    → free p mem t s ≡ some s'
    → Inv m s c
    → Inv m s' c
free-Inv p mem t s s' m c e h =
    let (base, size) = unmapped p mem (s.tcb t) in
    let s₁ = record s { zombie_list = mem.wfl_insert t s.zombie_list } in
    let s₂ = call (State.munmap base size) s in
    free-done (λ x. Inv m x c) p mem t s s' e
      (same-Inv m s s₁ c h (λ v. refl) (λ v. refl) (λ u. refl) (λ u. refl) (λ u. refl) refl refl)
      (same-Inv m s s₂ c h (λ v. refl) (λ v. refl) (λ u. refl) (λ u. refl) (λ u. refl) refl refl)
