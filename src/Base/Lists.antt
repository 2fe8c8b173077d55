-- ===== src/Base/Lists.antt =====
-- Lists over the native numbers, and the tail queues of <sys/queue.h> as lists of thread addresses.
use Prim.Native.Nat.{ℕ, suc, ◌+◌, ◌≤◌}
use mathlib.Core.Path.{◌≡◌, refl}
use mathlib.Core.List.{List, [], ◌∷◌, ◌++◌}
use mathlib.Core.Option.{Option, none, some}
use native.Mathlib.Omega.{arith}
use mathlib.Core.Logic.{inl, inr}
use upthread.Base.Tests.{◌==◌, bit, if◌then◌else◌, ◌>>=◌, Bool-cases}

module _ {ℓ} {A : Type ℓ} where
  abbrev pub length : List A → ℕ
  length [] = 0
  length (x ∷ xs) = suc (length xs)

  pub length-append : (xs ys : List A) → length (xs ++ ys) ≡ length xs + length ys
  length-append [] ys = omega arith
  length-append (x ∷ xs) ys = omega (arith, length-append xs ys)

  -- STAILQ_INSERT_TAIL
  abbrev pub insert_tail : List A → A → List A
  insert_tail q x = q ++ x ∷ []

  pub length-insert_tail : (q : List A) (x : A) → length (insert_tail q x) ≡ length q + 1
  length-insert_tail q x = omega (arith, length-append q (x ∷ []))

  -- STAILQ_FIRST followed by STAILQ_REMOVE_HEAD where there is a first one.
  abbrev pub pop_head : List A → Option A × List A
  pop_head [] = (none, [])
  pop_head (x ∷ xs) = (some x, xs)

-- How often an address stands in a queue.
unfoldable pub count : ℕ → List ℕ → ℕ
count t [] = 0
count t (x ∷ xs) = bit (t == x) + count t xs

pub count-append : (t : ℕ) (xs ys : List ℕ) → count t (xs ++ ys) ≡ count t xs + count t ys
unfolding count
count-append t [] ys = omega arith
count-append t (x ∷ xs) ys = omega (arith, count-append t xs ys)

pub count-insert_tail :
    (t : ℕ) (q : List ℕ) (x : ℕ) → count t (insert_tail q x) ≡ count t q + bit (t == x)
unfolding count
count-insert_tail t q x = ground (arith, count-append t q (x ∷ []))

pub count-cons : (t x : ℕ) (xs : List ℕ) → count t (x ∷ xs) ≡ bit (t == x) + count t xs
unfolding count
count-cons t x xs = refl

pub count-nil : (t : ℕ) → count t [] ≡ 0
unfolding count
count-nil t = refl

pub count-le-length : (t : ℕ) (q : List ℕ) → count t q ≤ length q
unfolding count
count-le-length t [] = omega arith
count-le-length t (x ∷ xs) = ground (arith, count-le-length t xs)

-- STAILQ_REMOVE: the list is walked until the element is found; past the end of the list the macro
-- follows a null pointer, here `none`.
unfoldable pub remove : ℕ → List ℕ → Option (List ℕ)
remove t [] = none
remove t (x ∷ xs) =
    let rest = remove t xs >>= (λ r. some (x ∷ r)) in if t == x then some xs else rest

-- An element that stands in the queue is removed, once.
pub remove_total :
    (t : ℕ) (q : List ℕ)
    → 1 ≤ count t q
    → (r : List ℕ) × (remove t q ≡ some r)
      × (length q ≡ length r + 1)
      × ((u : ℕ) → count u q ≡ count u r + bit (u == t))
unfolding count remove
remove_total t [] h = absurd (omega arith)
remove_total t (x ∷ xs) h = elim (Bool-cases (t == x)) [
  | inl e ↦ (xs, rw e, omega arith, λ u. ground arith)
  | inr e ↦
      let (r, eq, len, counts) = remove_total t xs (ground arith) in
      (x ∷ r, rw (e, eq), omega arith, λ u. ground (arith, counts u))
]
