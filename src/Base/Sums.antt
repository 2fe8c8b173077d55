-- ===== src/Base/Sums.antt =====
-- What the threads of a system hold together: sums over the first `n` threads of a weight of the
-- place where each stands, and what one thread's move changes of them.
use Prim.Native.Nat.{ℕ, zero, suc, ◌+◌, ◌≤◌, ◌<◌}
use mathlib.Core.Path.{◌≡◌, refl, fun_ext}
use mathlib.Core.Logic.{inl, inr, ◌≢◌}
use native.Mathlib.Omega.{arith}
use upthread.Base.Tests.{◌==◌, if◌then◌else◌, Bool-cases}

abbrev pub update {ℓ} : {A : Type ℓ} → (ℕ → A) → ℕ → A → ℕ → A
update f i a j = if j == i then a else f j

module _ {ℓ} {A : Type ℓ} (w : A → ℕ) where
  pub total : ℕ → (ℕ → A) → ℕ
  total zero f = 0
  total (suc n) f = w (f n) + total n f

  -- Threads at `n` and above do not count.
  total-above :
      (n : ℕ) (place : ℕ → A) (k : ℕ) (now : A)
      → n ≤ k
      → total n place ≡ total n (update place k now)
  unfolding total
  total-above zero place k now above = refl
  total-above (suc n) place k now above = ground (arith, total-above n place k now)

  -- One thread's move changes a sum by that thread's weights.
  pub total-update :
      (n : ℕ) (place : ℕ → A) (k : ℕ) (now : A)
      → k < n
      → w (place k) + total n (update place k now) ≡ w now + total n place
  unfolding total
  total-update zero place k now below = absurd (omega arith)
  total-update (suc n) place k now below = elim (Bool-cases (n == k)) [
    | inl e ↦ ground (arith, total-above n place k now)
    | inr e ↦ ground (arith, total-update n place k now)
  ]

  pub weight-le-total : (n : ℕ) (f : ℕ → A) (i : ℕ) → i < n → w (f i) ≤ total n f
  unfolding total
  weight-le-total zero f i h = absurd (omega arith)
  weight-le-total (suc n) f i h = elim (Bool-cases (n == i)) [
    | inl e ↦ ground arith
    | inr e ↦ ground (arith, weight-le-total n f i)
  ]

  -- Two threads weigh no more than all.
  pub two-le-total :
      (n : ℕ) (f : ℕ → A) (i j : ℕ) → i < n → j < n → i ≢ j → w (f i) + w (f j) ≤ total n f
  unfolding total
  two-le-total zero f i j h k d = absurd (omega arith)
  two-le-total (suc n) f i j h k d = elim (Bool-cases (n == i)) [
    | inl e ↦ ground (arith, weight-le-total n f j)
    | inr e ↦ elim (Bool-cases (n == j)) [
      | inl e' ↦ ground (arith, weight-le-total n f i)
      | inr e' ↦ ground (arith, two-le-total n f i j)
    ]
  ]

  -- A sum that is not 0 has a thread that is not 0.
  pub total-pos : (n : ℕ) (f : ℕ → A) → 0 < total n f → (i : ℕ) × (i < n) × (0 < w (f i))
  unfolding total
  total-pos zero f h = absurd (omega arith)
  total-pos (suc n) f h = elim (Bool-cases (0 == w (f n))) [
    | inl e ↦ let (i, lt, p) = total-pos n f (ground arith) in (i, omega arith, p)
    | inr e ↦ (n, omega arith, ground arith)
  ]

  pub total-eq-zero : (n : ℕ) (place : ℕ → A) → ((k : ℕ) → 0 ≡ w (place k)) → 0 ≡ total n place
  unfolding total
  total-eq-zero zero place none_weighs = refl
  total-eq-zero (suc n) place none_weighs =
      omega (arith, none_weighs n, total-eq-zero n place none_weighs)

  -- A move between places of the same weight changes no sum.
  pub total-update_same :
      (n : ℕ) (f : ℕ → A) (i : ℕ) (a : A)
      → i < n
      → w (f i) ≡ w a
      → total n (update f i a) ≡ total n f
  total-update_same n f i a h e = omega (arith, total-update n f i a)

pub total_mono {ℓ} :
    {A : Type ℓ} (v w : A → ℕ)
    → ((a : A) → v a ≤ w a)
    → (n : ℕ) (f : ℕ → A) → total v n f ≤ total w n f
unfolding total
total_mono v w h zero f = omega arith
total_mono v w h (suc n) f = omega (arith, h (f n), total_mono v w h n f)

pub update_self {ℓ} : {A : Type ℓ} (f : ℕ → A) (i : ℕ) (a : A) → f i ≡ a → update f i a ≡ f
update_self f i a e = fun_ext λ j. ground arith

-- Weights of 0 and 1 count threads.
module _ {ℓ} {A : Type ℓ} (w : A → ℕ) (small : (a : A) → w a ≤ 1) where
  pub at_most_all : (n : ℕ) (place : ℕ → A) → total w n place ≤ n
  unfolding total
  at_most_all zero place = omega arith
  at_most_all (suc n) place = omega (arith, at_most_all n place, small (place n))

  -- A thread that does not count leaves fewer than all.
  pub total-lt : (n : ℕ) (place : ℕ → A) (k : ℕ) → k < n → 0 ≡ w (place k) → total w n place < n
  unfolding total
  total-lt zero place k below none_there = absurd (omega arith)
  total-lt (suc n) place k below none_there = elim (Bool-cases (n == k)) [
    | inl e ↦ ground (arith, at_most_all n place)
    | inr e ↦ ground (arith, total-lt n place k, small (place n))
  ]

  -- If fewer than all count, there is a thread that does not.
  pub total-missing :
      (n : ℕ) (place : ℕ → A) → total w n place < n → (k : ℕ) × (k < n) × (0 ≡ w (place k))
  unfolding total
  total-missing zero place few = absurd (omega arith)
  total-missing (suc n) place few = elim (Bool-cases (0 == w (place n))) [
    | inl e ↦ (n, omega arith, ground arith)
    | inr e ↦
        let (k, below, e') = total-missing n place (ground (arith, small (place n))) in
        (k, omega arith, e')
  ]

  pub none_below :
      (n : ℕ) (place : ℕ → A) → ((k : ℕ) → k < n → 0 ≡ w (place k)) → 0 ≡ total w n place
  unfolding total
  none_below zero place none_there = refl
  none_below (suc n) place none_there =
      omega (arith, none_there n, none_below n place (λ k below. none_there k (omega arith)))

  -- If no two threads count, at most one does.
  pub total-le-one :
      (n : ℕ) (place : ℕ → A)
      → ((i j : ℕ) → i < n → j < n → 1 ≤ w (place i) → 1 ≤ w (place j) → i ≡ j)
      → total w n place ≤ 1
  unfolding total
  total-le-one zero place alone = omega arith
  total-le-one (suc n) place alone = elim (Bool-cases (0 == w (place n))) [
    | inl e ↦
        ground (arith, total-le-one n place (λ i j li lj. alone i j (omega arith) (omega arith)))
    | inr e ↦ omega (
      arith,
      small (place n),
      none_below n place (λ k below. ground (arith, alone k n, small (place k))),
    )
  ]

pub total_add {ℓ} :
    {A : Type ℓ} (u v w : A → ℕ)
    → ((a : A) → u a ≤ v a + w a)
    → (n : ℕ) (place : ℕ → A) → total u n place ≤ total v n place + total w n place
unfolding total
total_add u v w h zero place = omega arith
total_add u v w h (suc n) place = omega (arith, h (place n), total_add u v w h n place)

pub total_same {ℓ} :
    {A : Type ℓ} (v w : A → ℕ) (n : ℕ) (f g : ℕ → A)
    → ((k : ℕ) → k < n → v (f k) ≡ w (g k))
    → total v n f ≡ total w n g
unfolding total
total_same v w zero f g h = refl
total_same v w (suc n) f g h =
    omega (arith, h n, total_same v w n f g (λ k below. h k (omega arith)))
