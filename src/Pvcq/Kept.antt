-- ===== src/Pvcq/Kept.antt =====
-- src/pvcq/upthread.c: whether a thread that can run is in a queue or on a vcore of Pvcq/System.
use upthread.Base.{
  ℕ, ◌≤◌, ◌≡◌, sym, ap, ◌∙◌, subst, ◌≢◌, inl, inr, Option, none, some, List, arith, ◌==◌, ==_refl,
  Bool-cases, some_inj,
}
use upthread.Base.Sums.{update}
use upthread.Tcb.{Tcb, runnable, running}
use upthread.Pvcq.State.{Pvcq, Call, to_state}
use upthread.Pvcq.Invariant.{queued, Takes}
use upthread.Pvcq.Entering.{Enters}
use upthread.Pvcq.Places.{queued_same}

-- A runnable thread is in a queue, and a running one on a vcore.
pub record Kept (m : ℕ) (b : Pvcq) (current : ℕ → Option ℕ) : Type 0 where
  pub ready : (t : ℕ) → (b.tcb t).state ≡ runnable → 1 ≤ queued m t b
  pub active : (t : ℕ) → (b.tcb t).state ≡ running → (v : ℕ) × (current v ≡ some t)

pub move-Kept :
    (m : ℕ) (b b' : Pvcq) (c c' : ℕ → Option ℕ)
    → Kept m b c
    → ((v : ℕ) → (b'.vc_mgmt v).tqueue ≡ (b.vc_mgmt v).tqueue)
    → ((u : ℕ) → (b'.tcb u).state ≡ runnable → (b.tcb u).state ≡ runnable)
    → ((u : ℕ)
        → (b'.tcb u).state ≡ running
        → ((b.tcb u).state ≡ running) × ((v : ℕ) → c v ≡ some u → c' v ≡ some u))
    → Kept m b' c'
move-Kept m b b' c c' h queue ready ran = record {
  ready = λ u e. subst (λ n. 1 ≤ n) (sym (queued_same m u b b' queue)) (h.ready u (ready u e));
  active = λ u e. let (e', on) = ran u e in let (v, at) = h.active u e' in (v, on v at);
}

pub enter-Kept :
    (m t : ℕ) (b b' : Pvcq) (c : ℕ → Option ℕ) → Kept m b c → Enters m t b b' → Kept m b' c
enter-Kept m t b b' c h k = record {
  ready = λ u e. elim (Bool-cases (u == t)) [
    | inl q ↦ ground (arith, k.kept u)
    | inr q ↦ ground (
      arith,
      k.kept u,
      h.ready u (sym (ap (λ (x : Tcb). x.state) (k.same_tcb u (ground arith))) ∙ e),
    )
  ];
  active = λ u e. elim (Bool-cases (u == t)) [
    | inl q ↦
        let q' : u ≡ t = ground arith in
        absurd (ground (arith, sym e ∙ ap (λ x. (b'.tcb x).state) q' ∙ k.may_run))
    | inr q ↦ h.active u (sym (ap (λ (x : Tcb). x.state) (k.same_tcb u (ground arith))) ∙ e)
  ];
}

-- A vcore finds no thread.
pub take-Kept :
    (m self : ℕ) (b b₁ : Pvcq) (c : ℕ → Option ℕ)
    → Kept m b c
    → Takes m self b (none, b₁)
    → Kept m b₁ c
take-Kept m self b b₁ c h k = record {
  ready = λ u e. omega (arith, k.kept u, h.ready u (sym (k.same u).state ∙ e));
  active = λ u e. h.active u (sym (k.same u).state ∙ e);
}

-- A vcore finds a thread and runs it.
pub run-Kept :
    (m v t : ℕ) (calls : List Call) (b b₁ : Pvcq) (c : ℕ → Option ℕ)
    → Kept m b c
    → Takes m v b (some t, b₁)
    → c v ≡ none
    → Kept m (record (to_state running t b₁) { calls = calls }) (update c v (some t))
run-Kept m v t calls b b₁ c h k idle = record {
  ready = λ u e. elim (Bool-cases (u == t)) [
    | inl q ↦ absurd (ground arith)
    | inr q ↦
        let e' : (b₁.tcb u).state ≡ runnable = ground arith in
        ground (arith, k.kept u, h.ready u (sym (k.same u).state ∙ e'))
  ];
  active = λ u e. elim (Bool-cases (u == t)) [
    | inl q ↦ (v, ground (arith, ==_refl v))
    | inr q ↦
        let e' : (b₁.tcb u).state ≡ running = ground arith in
        let (w, at) = h.active u (sym (k.same u).state ∙ e') in (w, ground (arith, idle, at))
  ];
}

-- Vcore `v` stops its thread, and the others run what they ran.
pub stays :
    (v t w u : ℕ) (c : ℕ → Option ℕ)
    → c v ≡ some t
    → u ≢ t
    → c w ≡ some u
    → update c v none w ≡ some u
stays v t w u c at ne e = elim (Bool-cases (w == v)) [
  | inl q ↦ let q' : w ≡ v = ground arith in absurd (ne (some_inj (sym e ∙ ap c q' ∙ at)))
  | inr q ↦ ground arith
]
