-- ===== src/Pvcq/Working.antt =====
-- src/pvcq/upthread.c, lines 176-246: when `__pth_thread_dequeue` finds a thread.
use upthread.Base.{
  ℕ, zero, suc, ◌+◌, ◌-◌, ◌%◌, ◌≤◌, ◌<◌, ◌≡◌, refl, sym, ap, subst, ◌≢◌, ◌⊎◌, inl, inr, Bool, true,
  false, Option, none, some, arith, ltb, leb, ◌==◌, if◌then◌else◌, Bool-cases, length, nonzero,
  lt_int,
}
use native.Mathlib.Nat.{mod-eq_of_lt, mod_self}
use upthread.Pvcq.State.{Pvcq, Platform}
use upthread.Pvcq.Queues.{
  tdequeue, steal_threads, steal_one_of, num_to_steal, or_else, scan, two_choices, thread_dequeue,
}
use upthread.Pvcq.Invariant.{IsValid, tdequeue-some}
use upthread.Pvcq.Stealing.{steal_threads-some}
use upthread.Pvcq.Dequeue.{reseeded, reseeded-IsValid}

or_else-some :
    (r : Option ℕ × Pvcq) (f : Pvcq → Option ℕ × Pvcq) → r.0 ≢ none → (or_else r f).0 ≢ none
or_else-some (none, s) f h = absurd (h refl)
or_else-some (some t, s) f h = h

if-some : (b : Bool) (x y : Option ℕ × Pvcq) → b ≡ true → x.0 ≢ none → (if b then x else y).0 ≢ none
if-some true x y e h = h
if-some false x y e h = absurd (ground arith)

if-tried :
    (b : Bool) (x y : Option ℕ × Pvcq) (s : Pvcq)
    → (x.0 ≢ none) ⊎ (x ≡ (none, s))
    → (y.0 ≢ none) ⊎ (y ≡ (none, s))
    → ((if b then x else y).0 ≢ none) ⊎ ((if b then x else y) ≡ (none, s))
if-tried true x y s h k = h
if-tried false x y s h k = k

tdequeue-empty :
    (self v : ℕ) (s : Pvcq)
    → IsValid s
    → length (s.vc_mgmt v).tqueue ≡ 0
    → tdequeue self v s ≡ (none, s)
unfolding tdequeue
tdequeue-empty self v s w h =
    let e : nonzero (s.vc_mgmt v).tqsize ≡ false = ground (arith, w.sized v) in
    rw (e, tdequeue) refl

steal_threads-empty :
    (self v : ℕ) (s : Pvcq)
    → IsValid s
    → length (s.vc_mgmt v).tqueue ≡ 0
    → steal_threads self v s ≡ (none, s)
unfolding steal_threads
steal_threads-empty self v s w h =
    let e : nonzero (num_to_steal (s.vc_mgmt v).tqsize) ≡ false = ground (arith, w.sized v) in
    rw (e, steal_threads) refl

steal_tried :
    (self v : ℕ) (s : Pvcq)
    → IsValid s
    → ((steal_threads self v s).0 ≢ none) ⊎ (steal_threads self v s ≡ (none, s))
steal_tried self v s w = elim (Bool-cases (0 == length (s.vc_mgmt v).tqueue)) [
  | inl e ↦ inr (steal_threads-empty self v s w (ground arith))
  | inr e ↦ inl (steal_threads-some self v s w (ground arith))
]

-- The number after `i` of `m`, round the circle, and the way from `i` to `j`.
abbrev after : ℕ → ℕ → ℕ
after m i = if ltb (suc i) m then suc i else 0

abbrev way : ℕ → ℕ → ℕ → ℕ
way m i j = if leb i j then j - i else m - i + j

after-mod : (m i : ℕ) → i < m → (i + 1) % m ≡ after m i
after-mod m i h = elim (Bool-cases (ltb (suc i) m)) [
  | inl e ↦ let k : (i + 1) % m ≡ i + 1 = mod-eq_of_lt (ground arith) in ground arith
  | inr e ↦ let k : i + 1 ≡ m = ground arith in rw (e, k) (mod_self m)
]

way-after : (m i v : ℕ) → i < m → v < m → i ≢ v → way m (after m i) v + 1 ≡ way m i v
way-after m i v li lv ne = ground arith

module _ (p : Platform) (self : ℕ) (ls : self < p.max_vcores) where
  -- A scan that starts before `v` on its way to the thief comes to `v`.
  scan_finds :
      (fuel i v : ℕ) (s : Pvcq)
      → i < p.max_vcores
      → v < p.max_vcores
      → IsValid s
      → 1 ≤ length (s.vc_mgmt v).tqueue
      → way p.max_vcores i v < way p.max_vcores i self
      → way p.max_vcores i v < fuel
      → (scan p fuel self i s).0 ≢ none
  unfolding scan
  scan_finds zero i v s li lv w some_thread near enough = absurd (omega arith)
  scan_finds (suc fuel) i v s li lv w some_thread near enough = elim (Bool-cases (i == self)) [
    | inl e ↦ absurd (ground arith)
    | inr e ↦
        rw (e, scan)
          (elim (steal_tried self i s w) [
            | inl found ↦ or_else-some _ _ found
            | inr nothing ↦
                let m = p.max_vcores in
                let apart : i ≢ v = λ eq.
                  steal_threads-some self i s w
                    (subst (λ x. 1 ≤ length (s.vc_mgmt x).tqueue) (sym eq) some_thread)
                    (ap (λ (r : Option ℕ × Pvcq). r.0) nothing) in
                let on = way-after m i v li lv apart in
                let on_self = way-after m i self li ls (ground arith) in
                rw (nothing, after-mod m i li)
                  (scan_finds fuel (after m i) v s (ground arith) lv w some_thread
                    (omega (arith, on, on_self)) (omega (arith, on)))
          ])
  ]

  one_of_tried :
      (c d : ℕ) (s : Pvcq)
      → IsValid s
      → ((steal_one_of self c d s).0 ≢ none) ⊎ (steal_one_of self c d s ≡ (none, s))
  one_of_tried c d s w = elim (Bool-cases (self == c)) [
    | inl e ↦ rw e (steal_tried self d s w)
    | inr e ↦ rw e (steal_tried self c s w)
  ]

  two_choices_tried :
      (s : Pvcq)
      → IsValid s
      → ((two_choices p self s).0 ≢ none)
        ⊎ ((seed : ℕ) × (two_choices p self s ≡ (none, reseeded p self ls seed s)))
  unfolding two_choices
  two_choices_tried s w =
      let (r₀, seed₀) = p.rand_r (s.vc_mgmt self).rseed in
      let (r₁, seed₁) = p.rand_r seed₀ in
      let c₀ = r₀ % p.num_vcores in
      let c₁ = r₁ % p.num_vcores in
      let s₁ = reseeded p self ls seed₁ s in
      let w₁ = reseeded-IsValid p self ls seed₁ s w in
      elim (if-tried (lt_int (s₁.vc_mgmt c₁).tqsize (s₁.vc_mgmt c₀).tqsize) _ _ s₁
        (one_of_tried c₀ c₁ s₁ w₁) (one_of_tried c₁ c₀ s₁ w₁)) [
          | inl found ↦ inl found
          | inr nothing ↦ inr (seed₁, nothing)
        ]

  -- A vcore that may steal and takes a thread from the queues finds one if any vcore's queue has
  -- one, in a valid state.
  pub thread_dequeue_finds :
      (v : ℕ) (s : Pvcq)
      → v < p.max_vcores
      → IsValid s
      → s.can_steal ≡ true
      → 1 ≤ length (s.vc_mgmt v).tqueue
      → (thread_dequeue p self s).0 ≢ none
  unfolding thread_dequeue
  thread_dequeue_finds v s lv w can some_thread =
      elim (Bool-cases (0 == length (s.vc_mgmt self).tqueue)) [
        | inr e ↦ or_else-some _ _ (tdequeue-some self self s w (ground arith))
        | inl e ↦
            rw (tdequeue-empty self self s w (ground arith), thread_dequeue)
              (if-some s.can_steal _ _ can (elim (two_choices_tried s w) [
                | inl found ↦ or_else-some _ _ found
                | inr (seed, nothing) ↦
                    let m = p.max_vcores in
                    let apart : v ≢ self =
                      λ eq. ground (arith, ap (λ x. length (s.vc_mgmt x).tqueue) eq) in
                    rw (nothing, after-mod m self ls)
                      (scan_finds m (after m self) v (reseeded p self ls seed s) (ground arith) lv
                        (reseeded-IsValid p self ls seed s w) (ground arith) (ground arith)
                        (ground arith))
              ]))
      ]
