-- ===== src/Pvcq/Slots.antt =====
-- src/pvcq/upthread.c, lines 507-582: who waits in the `joiner` slots of the threads, as the parts of
-- the steps of Pvcq/System change them.
use upthread.Base.{
  ℕ, ◌≡◌, sym, ap, ◌∙◌, subst, ◌≢◌, ◌⊎◌, inl, inr, none, some, arith, ◌==◌, Bool-cases, some_inj,
}
use upthread.Tcb.{Tcb, ThreadState, running, exiting, blk_joining}

-- The thread in the slot of one that has not exited is another one, is blocked in its join, and is
-- in no other such slot.
pub record Slots (tcb : ℕ → Tcb) : Type 0 where
  pub held :
      (u j : ℕ)
      → (tcb u).state ≢ exiting
      → (tcb u).joiner ≡ some j
      → ((tcb j).state ≡ blk_joining) × (j ≢ u)
  pub one :
      (u w j : ℕ)
      → (tcb u).state ≢ exiting
      → (tcb w).state ≢ exiting
      → (tcb u).joiner ≡ some j
      → (tcb w).joiner ≡ some j
      → u ≡ w

-- A thread that is in no such slot.
abbrev pub IsLoose : (ℕ → Tcb) → ℕ → Type 0
IsLoose tcb t = (u : ℕ) → (tcb u).state ≢ exiting → (tcb u).joiner ≢ some t

pub loose : (tcb : ℕ → Tcb) (t : ℕ) → Slots tcb → (tcb t).state ≢ blk_joining → IsLoose tcb t
loose tcb t h ne u live e = ne (h.held u t live e).0

pub exiting-or_not : (st : ThreadState) → (st ≡ exiting) ⊎ (st ≢ exiting)
exiting-or_not st = ground arith

-- A thread that is in no slot gets another state, and no slot changes.
pub retag-Slots :
    (tcb tcb' : ℕ → Tcb) (t : ℕ)
    → Slots tcb
    → IsLoose tcb t
    → (tcb t).state ≢ exiting
    → ((u : ℕ) → u ≢ t → (tcb' u).state ≡ (tcb u).state)
    → ((u : ℕ) → (tcb' u).joiner ≡ (tcb u).joiner)
    → Slots tcb'
retag-Slots tcb tcb' t h free live kept slot = record {
  held = λ u j k e.
      let k' = was_live u k in
      let e' = sym (slot u) ∙ e in
      let (st, ne) = h.held u j k' e' in (kept j (λ q. free u k' (e' ∙ ap some q)) ∙ st, ne);
  one = λ u w j k l e f.
      h.one u w j (was_live u k) (was_live w l) (sym (slot u) ∙ e) (sym (slot w) ∙ f);
}
  where
    was_live : (u : ℕ) → (tcb' u).state ≢ exiting → (tcb u).state ≢ exiting
    was_live u k q = elim (Bool-cases (u == t)) [
      | inl e ↦ let e' : u ≡ t = ground arith in live (subst (λ x. (tcb x).state ≡ exiting) e' q)
      | inr e ↦ k (kept u (ground arith) ∙ q)
    ]

-- A block gets an empty slot, or its thread has exited.
pub clear-Slots :
    (tcb tcb' : ℕ → Tcb) (t : ℕ)
    → Slots tcb
    → IsLoose tcb t
    → ((tcb' t).state ≡ exiting) ⊎ ((tcb' t).joiner ≡ none)
    → ((u : ℕ) → u ≢ t → (tcb' u).state ≡ (tcb u).state)
    → ((u : ℕ) → u ≢ t → (tcb' u).joiner ≡ (tcb u).joiner)
    → Slots tcb'
clear-Slots tcb tcb' t h free over kept slot = record {
  held = λ u j k e.
      let ne = other u j k e in
      let k' : (tcb u).state ≢ exiting = λ q. k (kept u ne ∙ q) in
      let e' = sym (slot u ne) ∙ e in
      let (st, out) = h.held u j k' e' in (kept j (λ q. free u k' (e' ∙ ap some q)) ∙ st, out);
  one = λ u w j k l e f.
      let ne = other u j k e in
      let no = other w j l f in
      h.one u w j (λ q. k (kept u ne ∙ q)) (λ q. l (kept w no ∙ q)) (sym (slot u ne) ∙ e)
        (sym (slot w no) ∙ f);
}
  where
    other : (u j : ℕ) → (tcb' u).state ≢ exiting → (tcb' u).joiner ≡ some j → u ≢ t
    other u j k e q = elim over [
      | inl gone ↦ k (ap (λ x. (tcb' x).state) q ∙ gone)
      | inr empty ↦ ground (arith, sym e ∙ ap (λ x. (tcb' x).joiner) q ∙ empty)
    ]

-- A thread that ran waits in the slot of another one.
pub wait-Slots :
    (tcb tcb' : ℕ → Tcb) (t target : ℕ)
    → Slots tcb
    → (tcb t).state ≡ running
    → t ≢ target
    → (tcb' t).state ≡ blk_joining
    → ((u : ℕ) → u ≢ t → (tcb' u).state ≡ (tcb u).state)
    → (tcb' target).joiner ≡ some t
    → ((u : ℕ) → u ≢ target → (tcb' u).joiner ≡ (tcb u).joiner)
    → Slots tcb'
wait-Slots tcb tcb' t target h ran ne st kept slot others = record {
  held = λ u j k e. elim (Bool-cases (u == target)) [
    | inl q ↦
        let q' : u ≡ target = ground arith in
        let e' : t ≡ j = some_inj (sym slot ∙ ap (λ x. (tcb' x).joiner) (sym q') ∙ e) in
        (ap (λ x. (tcb' x).state) (sym e') ∙ st, ground arith)
    | inr q ↦
        let e' = sym (others u (ground arith)) ∙ e in
        let (st', out) = h.held u j (live u k) e' in (kept j (λ x. was_not x st') ∙ st', out)
  ];
  one = λ u w j k l e f. ground (arith, old u j k e, old w j l f, h.one u w j);
}
  where
    was_not : {j : ℕ} → j ≡ t → (tcb j).state ≡ blk_joining → ⊥
    was_not x st' = let q = sym ran ∙ ap (λ y. (tcb y).state) (sym x) ∙ st' in ground arith

    live : (u : ℕ) → (tcb' u).state ≢ exiting → (tcb u).state ≢ exiting
    live u k q = elim (Bool-cases (u == t)) [
      | inl e ↦
          let e' : u ≡ t = ground arith in
          let q' = sym ran ∙ ap (λ y. (tcb y).state) (sym e') ∙ q in ground arith
      | inr e ↦ k (kept u (ground arith) ∙ q)
    ]

    -- The slots of live threads that hold `j`: `t` is in that of its target, and the others are old.
    old :
        (u j : ℕ)
        → (tcb' u).state ≢ exiting
        → (tcb' u).joiner ≡ some j
        → ((u ≡ target) × (j ≡ t))
          ⊎ ((j ≢ t) × ((tcb u).state ≢ exiting) × ((tcb u).joiner ≡ some j))
    old u j k e = elim (Bool-cases (u == target)) [
      | inl q ↦
          let q' : u ≡ target = ground arith in
          inl (q', some_inj (sym e ∙ ap (λ x. (tcb' x).joiner) q' ∙ slot))
      | inr q ↦
          let e' = sym (others u (ground arith)) ∙ e in
          inr ((λ x. was_not x (h.held u j (live u k) e').0), live u k, e')
    ]

pub same-Slots :
    (tcb tcb' : ℕ → Tcb)
    → Slots tcb
    → ((u : ℕ) → (tcb' u).state ≡ (tcb u).state)
    → ((u : ℕ) → (tcb' u).joiner ≡ (tcb u).joiner)
    → Slots tcb'
same-Slots tcb tcb' h kept slot = record {
  held = λ u j k e.
      let (st, ne) = h.held u j (λ q. k (kept u ∙ q)) (sym (slot u) ∙ e) in (kept j ∙ st, ne);
  one = λ u w j k l e f.
      h.one u w j (λ q. k (kept u ∙ q)) (λ q. l (kept w ∙ q)) (sym (slot u) ∙ e) (sym (slot w) ∙ f);
}
