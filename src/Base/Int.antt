-- ===== src/Base/Int.antt =====
-- Signed integers, for what C declares `int`. `incr` and `decr` have no bound, as the overflow of `++`
-- and `--` has no meaning in C; an atomic addition wraps around.
use Prim.Native.Nat.{ℕ, zero, suc, ◌+◌, ◌-◌, ◌<◌}
use mathlib.Core.Path.{◌≡◌, refl}
use mathlib.Core.Bool.{Bool, true, false}
use native.Mathlib.Omega.{arith}
use upthread.Base.Tests.{◌==◌, ltb, if◌then◌else◌}

-- `negsuc n` is -(n + 1).
pub data ℤ : Type 0 where
  pos : ℕ → ℤ
  negsuc : ℕ → ℤ

-- `x++`
abbrev pub incr : ℤ → ℤ
incr (pos n) = pos (n + 1)
incr (negsuc zero) = pos 0
incr (negsuc (suc n)) = negsuc n

-- `x--`
abbrev pub decr : ℤ → ℤ
decr (pos zero) = negsuc 0
decr (pos (suc n)) = pos n
decr (negsuc n) = negsuc (suc n)

-- `x != 0`, the truth of an int
abbrev pub nonzero : ℤ → Bool
nonzero (pos zero) = false
nonzero (pos (suc n)) = true
nonzero (negsuc n) = true

-- `x > 0`
abbrev pub positive : ℤ → Bool
positive (pos zero) = false
positive (pos (suc n)) = true
positive (negsuc n) = false

-- `x < 0`
abbrev pub negative : ℤ → Bool
negative (pos n) = false
negative (negsuc n) = true

-- `a == b`
abbrev pub eq_int : ℤ → ℤ → Bool
eq_int (pos m) (pos n) = m == n
eq_int (pos m) (negsuc n) = false
eq_int (negsuc m) (pos n) = false
eq_int (negsuc m) (negsuc n) = m == n

abbrev pub int_max : ℤ
int_max = pos 2147483647

-- `__sync_fetch_and_add(&x, 1)` on an int of 32 bits: what follows INT_MAX is INT_MIN.
unfoldable pub fetch_and_add : ℤ → ℤ
fetch_and_add x = if eq_int x int_max then negsuc 2147483647 else incr x

-- `a < b`
abbrev pub lt_int : ℤ → ℤ → Bool
lt_int (pos m) (pos n) = ltb m n
lt_int (pos m) (negsuc n) = false
lt_int (negsuc m) (pos n) = true
lt_int (negsuc m) (negsuc n) = ltb n m

pub fetch_and_add-incr : (x : ℤ) → eq_int x int_max ≡ false → fetch_and_add x ≡ incr x
unfolding fetch_and_add
fetch_and_add-incr x e = rw e refl

pub decr-incr : (x : ℤ) → decr (incr x) ≡ x
decr-incr (pos n) = ground arith
decr-incr (negsuc zero) = refl
decr-incr (negsuc (suc n)) = refl

pub incr-decr : (x : ℤ) → incr (decr x) ≡ x
incr-decr (pos zero) = refl
incr-decr (pos (suc n)) = ground arith
incr-decr (negsuc n) = refl

pub decr-pos : (n : ℕ) → 0 < n → decr (pos n) ≡ pos (n - 1)
decr-pos zero h = absurd (omega arith)
decr-pos (suc n) h = ground arith

-- The number of an int that is not negative.
abbrev pub pos_part : ℤ → ℕ
pos_part (pos n) = n
pos_part (negsuc n) = 0

pub eq_int→eq : (a b : ℤ) → eq_int a b ≡ true → a ≡ b
eq_int→eq a b h = ground arith
