-- ===== src/Pvcq/Freeing.antt =====
-- src/pvcq/upthread.c, lines 74-103 and 505-590: a block is freed, used again, or owed to a thread that
-- joins.
use upthread.Base.{
  ℕ, ◌+◌, ◌≤◌, ◌≡◌, sym, ap, ◌∙◌, subst, ◌≢◌, inl, inr, true, Option, none, some, List, arith, ◌==◌,
  bit, ==_refl, Bool-cases, some_inj, count,
}
use upthread.Base.Sums.{update}
use upthread.Tcb.{Tcb, running, exiting, blk_joining}
use upthread.Pvcq.State.{Pvcq}
use upthread.Pvcq.Swapping.{waiting}
use upthread.Pvcq.Slots.{Slots}
use upthread.Pvcq.System.{IsUnowed}
use upthread.Pvcq.Owed.{Owed}

-- A running thread waits for the exit of another.
pub wait-Owed :
    (t target : ℕ) (b : Pvcq) (joining : ℕ → Option ℕ)
    → Owed b joining
    → Slots b.tcb
    → (b.tcb t).state ≡ running
    → joining t ≡ none
    → Owed (waiting t target b) (update joining t (some target))
wait-Owed t target b joining h slots ran idle = record {
  listed = h.listed;
  gone = λ u k. ground (arith, h.gone u k);
  pending = λ u tg e. elim (Bool-cases (u == t)) [
    | inl q ↦ inl (ground (arith, ==_refl t))
    | inr q ↦
        let e' : joining u ≡ some tg = ground arith in
        elim (h.pending u tg e') [
          | inl blocked ↦ inl (ground arith)
          | inr (gone, free) ↦ inr (ground arith, free)
        ]
  ];
  alone = λ u w tg e f x y. elim (Bool-cases (u == t)) [
    | inl q ↦ absurd (x (ground (arith, ==_refl t)))
    | inr q ↦ elim (Bool-cases (w == t)) [
      | inl r ↦ absurd (y (ground (arith, ==_refl t)))
      | inr r ↦
          h.alone u w tg (ground arith) (ground arith) (λ z. x (ground arith))
            (λ z. y (ground arith))
    ]
  ];
  slot = λ u j on e. elim (Bool-cases (u == target)) [
    | inl q ↦
        let full : some t ≡ some j = ground arith in
        let same : t ≡ j = some_inj full in
        subst (λ x. update joining t (some target) x ≡ some u) same (ground (arith, ==_refl t))
    | inr q ↦
        let live : (b.tcb u).state ≢ exiting = λ z. on (ground arith) in
        let full : (b.tcb u).joiner ≡ some j = ground arith in
        let owes = h.slot u j live full in
        let ne : j ≢ t = λ z. ground (arith, sym owes ∙ ap joining z ∙ idle) in
        ground (arith, ne, owes)
  ];
}

-- A thread that goes on from its join has freed its target, or is about to.
pub drop-Owed :
    (t : ℕ) (b : Pvcq) (joining : ℕ → Option ℕ)
    → Owed b joining
    → Slots b.tcb
    → (b.tcb t).state ≡ running
    → Owed b (update joining t none)
drop-Owed t b joining h slots ran = record {
  listed = h.listed;
  gone = h.gone;
  pending = λ u tg e. h.pending u tg (dropped u tg e).0;
  alone = λ u w tg e f x y. h.alone u w tg (dropped u tg e).0 (dropped w tg f).0 x y;
  slot = λ u j on e.
      let owes = h.slot u j on e in
      let st = (slots.held u j on e).0 in
      let ne : j ≢ t = λ z. ground (arith, sym st ∙ ap (λ x. (b.tcb x).state) z ∙ ran) in
      ground (arith, ne, owes);
}
  where
    dropped : (u tg : ℕ) → update joining t none u ≡ some tg → (joining u ≡ some tg) × (u ≢ t)
    dropped u tg e = elim (Bool-cases (u == t)) [
      | inl q ↦ absurd (ground arith)
      | inr q ↦ (ground arith, ground arith)
    ]

-- The block of a thread that has exited is put into `zombie_list`.
pub bury-Owed :
    (t : ℕ) (l : List ℕ) (b : Pvcq) (joining : ℕ → Option ℕ)
    → Owed b joining
    → (b.tcb t).state ≡ exiting
    → IsUnowed t b joining
    → ((u : ℕ) → count u l ≡ count u b.zombie_list + bit (u == t))
    → Owed (record b { zombie_list = l }) joining
bury-Owed t l b joining h over (unlisted, unowed) put = record {
  listed = λ u. elim (Bool-cases (u == t)) [
    | inl q ↦
        let z : count u b.zombie_list ≡ 0 = ap (λ x. count x b.zombie_list) (is_t u q) ∙ unlisted in
        ground (arith, put u, z)
    | inr q ↦ ground (arith, put u, h.listed u)
  ];
  gone = λ u k. elim (Bool-cases (u == t)) [
    | inl q ↦ ap (λ x. (b.tcb x).state) (is_t u q) ∙ over
    | inr q ↦ h.gone u (ground (arith, put u))
  ];
  pending = λ u tg e. elim (h.pending u tg e) [
    | inl blocked ↦ inl blocked
    | inr (gone, free) ↦ elim (Bool-cases (tg == t)) [
      | inl q ↦ inl (unowed u (e ∙ ap some (is_t tg q)))
      | inr q ↦ inr (gone, ground (arith, put tg))
    ]
  ];
  alone = h.alone;
  slot = h.slot;
}
  where
    is_t : (u : ℕ) → (u == t) ≡ true → u ≡ t
    is_t u q = ground arith

-- The block of no thread becomes that of a new one.
pub fresh-Owed :
    (t : ℕ) (b b' : Pvcq) (joining : ℕ → Option ℕ)
    → Owed b joining
    → (b.tcb t).state ≢ blk_joining
    → ((u : ℕ) → count u b'.zombie_list ≤ count u b.zombie_list)
    → count t b'.zombie_list ≡ 0
    → ((u : ℕ) → joining u ≡ some t → (b.tcb u).state ≡ blk_joining)
    → (b'.tcb t).joiner ≡ none
    → ((u : ℕ) → u ≢ t → b'.tcb u ≡ b.tcb u)
    → (b'.tcb t).state ≢ blk_joining
    → Owed b' joining
fresh-Owed t b b' joining h over fewer unlisted unowed empty others fresh = record {
  listed = λ u. omega (arith, fewer u, h.listed u);
  gone = λ u k.
      let ne : u ≢ t = λ z. ground (arith, k, ap (λ x. count x b'.zombie_list) z ∙ unlisted) in
      state_of u ne ∙ h.gone u (omega (arith, k, fewer u));
  pending = λ u tg e. elim (h.pending u tg e) [
    | inl blocked ↦ inl (stays_blocked u blocked)
    | inr (gone, free) ↦ elim (Bool-cases (tg == t)) [
      | inl q ↦ let q' : tg ≡ t = ground arith in inl (stays_blocked u (unowed u (e ∙ ap some q')))
      | inr q ↦ inr (state_of tg (ground arith) ∙ gone, ground (arith, fewer tg))
    ]
  ];
  alone = λ u w tg e f x y.
      h.alone u w tg e f (λ z. x (stays_blocked u z)) (λ z. y (stays_blocked w z));
  slot = λ u j on e. elim (Bool-cases (u == t)) [
    | inl q ↦
        let q' : u ≡ t = ground arith in
        absurd (ground (arith, sym e ∙ ap (λ x. (b'.tcb x).joiner) q' ∙ empty))
    | inr q ↦
        let s = others u (ground arith) in
        h.slot u j (λ z. on (ap (λ (y : Tcb). y.state) s ∙ z))
          (sym (ap (λ (y : Tcb). y.joiner) s) ∙ e)
  ];
}
  where
    state_of : (u : ℕ) → u ≢ t → (b'.tcb u).state ≡ (b.tcb u).state
    state_of u ne = ap (λ (y : Tcb). y.state) (others u ne)

    stays_blocked : (u : ℕ) → (b.tcb u).state ≡ blk_joining → (b'.tcb u).state ≡ blk_joining
    stays_blocked u q = state_of u (λ z. over (ap (λ x. (b.tcb x).state) (sym z) ∙ q)) ∙ q

-- A thread finds the target of its join gone.
pub late-Owed :
    (t target : ℕ) (b : Pvcq) (joining : ℕ → Option ℕ)
    → Owed b joining
    → Slots b.tcb
    → (b.tcb t).state ≡ running
    → joining t ≡ none
    → (b.tcb target).state ≡ exiting
    → IsUnowed target b joining
    → Owed b (update joining t (some target))
late-Owed t target b joining h slots ran idle over (unlisted, unowed) = record {
  listed = h.listed;
  gone = h.gone;
  pending = λ u tg e. elim (Bool-cases (u == t)) [
    | inl q ↦
        let same : target ≡ tg = some_inj (sym (at_t u q) ∙ e) in
        inr (
          subst (λ x. ((b.tcb x).state ≡ exiting) × (count x b.zombie_list ≡ 0)) same
            (over, unlisted))
    | inr q ↦ h.pending u tg (ground arith)
  ];
  alone = λ u w tg e f x y. elim (Bool-cases (u == t)) [
    | inl q ↦ elim (Bool-cases (w == t)) [
      | inl r ↦ ground arith
      | inr r ↦
          let f' : joining w ≡ some tg = ground arith in
          absurd (y (unowed w (f' ∙ sym e ∙ at_t u q)))
    ]
    | inr q ↦ elim (Bool-cases (w == t)) [
      | inl r ↦
          let e' : joining u ≡ some tg = ground arith in
          absurd (x (unowed u (e' ∙ sym f ∙ at_t w r)))
      | inr r ↦ h.alone u w tg (ground arith) (ground arith) x y
    ]
  ];
  slot = λ u j on e.
      let owes = h.slot u j on e in
      let ne : j ≢ t = λ z. ground (arith, sym owes ∙ ap joining z ∙ idle) in
      ground (arith, ne, owes);
}
  where
    at_t : (u : ℕ) → (u == t) ≡ true → update joining t (some target) u ≡ some target
    at_t u q = ground arith
