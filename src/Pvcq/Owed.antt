-- ===== src/Pvcq/Owed.antt =====
-- src/pvcq/upthread.c, lines 74-103 and 505-590: the blocks of dead threads, and who frees which, as
-- the parts of the steps of Pvcq/System change them.
use upthread.Base.{
  ℕ, ◌≤◌, ◌≡◌, sym, ap, ◌∙◌, subst, ◌≢◌, ◌⊎◌, inl, inr, true, Option, some, arith, ◌==◌, Bool-cases,
  some_inj, count,
}
use upthread.Tcb.{Tcb, exiting, blk_joining}
use upthread.Pvcq.State.{Pvcq}
use upthread.Pvcq.System.{IsUnowed}
use upthread.Pvcq.Entering.{Enters}

-- A block is in `zombie_list` once at most, and then its thread has exited. A thread that goes on after
-- its `upthread_join` frees a block that nobody else frees and that is not freed yet.
pub record Owed (b : Pvcq) (joining : ℕ → Option ℕ) : Type 0 where
  pub listed : (t : ℕ) → count t b.zombie_list ≤ 1
  pub gone : (t : ℕ) → 1 ≤ count t b.zombie_list → (b.tcb t).state ≡ exiting
  pub pending :
      (t target : ℕ)
      → joining t ≡ some target
      → ((b.tcb t).state ≡ blk_joining)
        ⊎ (((b.tcb target).state ≡ exiting) × (count target b.zombie_list ≡ 0))
  pub alone :
      (t u target : ℕ)
      → joining t ≡ some target
      → joining u ≡ some target
      → (b.tcb t).state ≢ blk_joining
      → (b.tcb u).state ≢ blk_joining
      → t ≡ u
  pub slot : (u j : ℕ) → (b.tcb u).state ≢ exiting → (b.tcb u).joiner ≡ some j → joining j ≡ some u

-- A thread that has not exited is not freed.
pub live-IsUnowed :
    (t : ℕ) (b : Pvcq) (joining : ℕ → Option ℕ)
    → Owed b joining
    → (b.tcb t).state ≢ exiting
    → IsUnowed t b joining
live-IsUnowed t b joining h live = (
  ground (arith, h.gone t),
  λ u e. elim (h.pending u t e) [ inl blocked ↦ blocked | inr (q, _) ↦ absurd (live q) ],
)

-- A change in which no thread exits or goes on from its join without its slot being told.
pub calm-Owed :
    (b b' : Pvcq) (joining : ℕ → Option ℕ)
    → Owed b joining
    → b'.zombie_list ≡ b.zombie_list
    → ((u : ℕ) → (b.tcb u).state ≡ exiting → (b'.tcb u).state ≡ exiting)
    → ((u : ℕ) → (b.tcb u).state ≡ blk_joining → (b'.tcb u).state ≡ blk_joining)
    → ((u j : ℕ)
        → (b'.tcb u).state ≢ exiting
        → (b'.tcb u).joiner ≡ some j
        → ((b.tcb u).state ≢ exiting) × ((b.tcb u).joiner ≡ some j))
    → Owed b' joining
calm-Owed b b' joining h dead exited blocked slots = record {
  listed = λ t. subst (λ l. count t l ≤ 1) (sym dead) (h.listed t);
  gone = λ t k. exited t (h.gone t (subst (λ l. 1 ≤ count t l) dead k));
  pending = λ t target e. elim (h.pending t target e) [
    | inl q ↦ inl (blocked t q)
    | inr (q, none_listed) ↦ inr (exited target q, ap (count target) dead ∙ none_listed)
  ];
  alone =
      λ t u target e f k l. h.alone t u target e f (λ q. k (blocked t q)) (λ q. l (blocked u q));
  slot = λ u j live e. let (live', e') = slots u j live e in h.slot u j live' e';
}

-- A thread that enters a queue and did not wait in a join.
pub enter-Owed :
    (m t : ℕ) (b b' : Pvcq) (joining : ℕ → Option ℕ)
    → Owed b joining
    → (b.tcb t).state ≢ blk_joining
    → (b.tcb t).state ≢ exiting
    → Enters m t b b'
    → Owed b' joining
enter-Owed m t b b' joining h free live k =
    calm-Owed b b' joining h k.dead
      (λ u q. state_of u (λ x. live (ap (λ y. (b.tcb y).state) (sym x) ∙ q)) ∙ q)
      (λ u q. state_of u (λ x. free (ap (λ y. (b.tcb y).state) (sym x) ∙ q)) ∙ q)
      (λ u j on e. elim (Bool-cases (u == t)) [
        | inl q ↦
            let q' : u ≡ t = ground arith in
            subst
              (λ x.
                (b'.tcb x).joiner ≡ some j
                → ((b.tcb x).state ≢ exiting) × ((b.tcb x).joiner ≡ some j))
              (sym q') (λ e. (live, sym k.slot ∙ e)) e
        | inr q ↦
            let s = k.same_tcb u (ground arith) in
            ((λ x. on (ap (λ (y : Tcb). y.state) s ∙ x)), sym (ap (λ (y : Tcb). y.joiner) s) ∙ e)
      ])
  where
    state_of : (u : ℕ) → u ≢ t → (b'.tcb u).state ≡ (b.tcb u).state
    state_of u ne = ap (λ (y : Tcb). y.state) (k.same_tcb u ne)

-- A thread goes on from the join of one that has exited.
pub wake-Owed :
    (m t target : ℕ) (b b' : Pvcq) (joining : ℕ → Option ℕ)
    → Owed b joining
    → (b.tcb t).state ≡ blk_joining
    → joining t ≡ some target
    → (b.tcb target).state ≡ exiting
    → IsUnowed target b joining
    → Enters m t b b'
    → Owed b' joining
wake-Owed m t target b b' joining h waits for over (unlisted, unowed) k = record {
  listed = λ u. subst (λ l. count u l ≤ 1) (sym k.dead) (h.listed u);
  gone = λ u q. stays_over u (h.gone u (subst (λ l. 1 ≤ count u l) k.dead q));
  pending = λ u tg e. elim (Bool-cases (u == t)) [
    | inl q ↦
        let q' : u ≡ t = ground arith in
        let same : tg ≡ target = some_inj (sym e ∙ ap joining q' ∙ for) in
        inr (
          subst (λ x. ((b'.tcb x).state ≡ exiting) × (count x b'.zombie_list ≡ 0)) (sym same)
            (stays_over target over, ap (count target) k.dead ∙ unlisted))
    | inr q ↦ elim (h.pending u tg e) [
      | inl blocked ↦ inl (state_of u (ground arith) ∙ blocked)
      | inr (gone, free) ↦ inr (stays_over tg gone, ap (count tg) k.dead ∙ free)
    ]
  ];
  alone = λ u w tg e f x y. elim (Bool-cases (u == t)) [
    | inl q ↦ elim (Bool-cases (w == t)) [
      | inl r ↦ ground arith
      | inr r ↦
          absurd
            (y (state_of w (ground arith) ∙ unowed w (f ∙ sym e ∙ ap joining (is_t u q) ∙ for)))
    ]
    | inr q ↦ elim (Bool-cases (w == t)) [
      | inl r ↦
          absurd
            (x (state_of u (ground arith) ∙ unowed u (e ∙ sym f ∙ ap joining (is_t w r) ∙ for)))
      | inr r ↦
          h.alone u w tg e f (λ z. x (state_of u (ground arith) ∙ z))
            (λ z. y (state_of w (ground arith) ∙ z))
    ]
  ];
  slot = λ u j on e. elim (Bool-cases (u == t)) [
    | inl q ↦
        h.slot u j (λ z. ground (arith, ap (λ y. (b.tcb y).state) (sym (is_t u q)), waits, z))
          (subst (λ y. (b.tcb y).joiner ≡ some j) (sym (is_t u q))
            (sym k.slot ∙ ap (λ y. (b'.tcb y).joiner) (sym (is_t u q)) ∙ e))
    | inr q ↦
        let s = k.same_tcb u (ground arith) in
        h.slot u j (λ x. on (ap (λ (y : Tcb). y.state) s ∙ x))
          (sym (ap (λ (y : Tcb). y.joiner) s) ∙ e)
  ];
}
  where
    is_t : (u : ℕ) → (u == t) ≡ true → u ≡ t
    is_t u q = ground arith

    state_of : (u : ℕ) → u ≢ t → (b'.tcb u).state ≡ (b.tcb u).state
    state_of u ne = ap (λ (y : Tcb). y.state) (k.same_tcb u ne)

    stays_over : (u : ℕ) → (b.tcb u).state ≡ exiting → (b'.tcb u).state ≡ exiting
    stays_over u q =
        state_of u (λ x. ground (arith, sym waits ∙ ap (λ y. (b.tcb y).state) (sym x) ∙ q)) ∙ q
