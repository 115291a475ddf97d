-- ===== src/Base/Int.antt =====
-- The integers over the native numbers: `negsuc n` is -(n + 1). `/` and `%` of C round towards zero.
use Prim.Native.Nat.{ℕ, zero, suc, ◌+◌, ◌-◌, ◌*◌, ◌/◌, ◌%◌, ◌^◌, ◌≤◌, ◌<◌}
use mathlib.Core.Path.{◌≡◌}
use mathlib.Core.Bool.{Bool, true, false}
use native.Mathlib.Omega.{arith}
use native.Mathlib.Nat.{div-add-mod', mod-le}
use vnt.Base.Tests.{ltb, leb, ◌==◌, if◌then◌else◌}

pub data ℤ : Type 0 where
  pos : ℕ → ℤ
  negsuc : ℕ → ℤ

abbrev pub pos_part : ℤ → ℕ
pos_part (pos n) = n
pos_part (negsuc n) = 0

abbrev pub neg_part : ℤ → ℕ
neg_part (pos n) = 0
neg_part (negsuc n) = suc n

abbrev pub nat_abs : ℤ → ℕ
nat_abs (pos n) = n
nat_abs (negsuc n) = suc n

-- a - b
unfoldable pub difference : ℕ → ℕ → ℤ
difference a b = if leb b a then pos (a - b) else negsuc (b - a - 1)

infixl 65 ◌+ℤ◌
infixl 65 ◌-ℤ◌
infixl 70 ◌*ℤ◌
infix 50 ◌==ℤ◌
unfoldable pub ◌+ℤ◌ : ℤ → ℤ → ℤ
unfolding difference
a +ℤ b = difference (pos_part a + pos_part b) (neg_part a + neg_part b)

unfoldable pub ◌-ℤ◌ : ℤ → ℤ → ℤ
unfolding difference
a -ℤ b = difference (pos_part a + neg_part b) (neg_part a + pos_part b)

unfoldable pub ◌*ℤ◌ : ℤ → ℤ → ℤ
unfolding difference
a *ℤ b =
    difference (pos_part a * pos_part b + neg_part a * neg_part b)
      (pos_part a * neg_part b + neg_part a * pos_part b)

unfoldable pub neg_ℤ : ℤ → ℤ
neg_ℤ (pos zero) = pos zero
neg_ℤ (pos (suc n)) = negsuc n
neg_ℤ (negsuc n) = pos (suc n)

-- Of a divisor that is not 0.
unfoldable pub tdiv : ℤ → ℤ → ℤ
unfolding neg_ℤ
tdiv (pos m) (pos n) = pos (m / n)
tdiv (pos m) (negsuc n) = neg_ℤ (pos (m / suc n))
tdiv (negsuc m) (pos n) = neg_ℤ (pos (suc m / n))
tdiv (negsuc m) (negsuc n) = pos (suc m / suc n)

unfoldable pub tmod : ℤ → ℤ → ℤ
unfolding neg_ℤ
tmod (pos m) b = pos (m % nat_abs b)
tmod (negsuc m) b = neg_ℤ (pos (suc m % nat_abs b))

abbrev pub ◌==ℤ◌ : ℤ → ℤ → Bool
pos m ==ℤ pos n = m == n
negsuc m ==ℤ negsuc n = m == n
_ ==ℤ _ = false

-- a < b
abbrev pub lt_ℤ : ℤ → ℤ → Bool
lt_ℤ (pos m) (pos n) = ltb m n
lt_ℤ (negsuc m) (negsuc n) = ltb n m
lt_ℤ (negsuc m) (pos n) = true
lt_ℤ (pos m) (negsuc n) = false

-- INT64_MIN
abbrev pub int64_min : ℤ
int64_min = negsuc (2 ^ 63 - 1)

abbrev pub in_int64 : ℤ → Bool
in_int64 (pos n) = ltb n (2 ^ 63)
in_int64 (negsuc n) = ltb n (2 ^ 63)

difference_parts : (a b : ℕ) → pos_part (difference a b) + b ≡ neg_part (difference a b) + a
unfolding difference
difference_parts a b = ground arith

pub +ℤ_parts :
    (a b : ℤ)
    → pos_part (a +ℤ b) + neg_part a + neg_part b ≡ neg_part (a +ℤ b) + pos_part a + pos_part b
unfolding ◌+ℤ◌
+ℤ_parts a b = omega (arith, difference_parts)

pub -ℤ_parts :
    (a b : ℤ)
    → pos_part (a -ℤ b) + neg_part a + pos_part b ≡ neg_part (a -ℤ b) + pos_part a + neg_part b
unfolding ◌-ℤ◌
-ℤ_parts a b = omega (arith, difference_parts)

pub neg_ℤ_parts : (a : ℤ) → pos_part (neg_ℤ a) ≡ neg_part a
unfolding neg_ℤ
neg_ℤ_parts a = ground arith

module _ (q r n m : ℕ) (h : q * n + r ≡ m) where
  recompose : pos q *ℤ pos n +ℤ pos r ≡ pos m
  unfolding ◌*ℤ◌ ◌+ℤ◌ difference
  recompose = ground arith

  recompose_divisor : neg_ℤ (pos q) *ℤ neg_ℤ (pos n) +ℤ pos r ≡ pos m
  unfolding ◌*ℤ◌ ◌+ℤ◌ difference neg_ℤ
  recompose_divisor = ground arith

  recompose_dividend : neg_ℤ (pos q) *ℤ pos n +ℤ neg_ℤ (pos r) ≡ neg_ℤ (pos m)
  unfolding ◌*ℤ◌ ◌+ℤ◌ difference neg_ℤ
  recompose_dividend = ground arith

  recompose_both : pos q *ℤ neg_ℤ (pos n) +ℤ neg_ℤ (pos r) ≡ neg_ℤ (pos m)
  unfolding ◌*ℤ◌ ◌+ℤ◌ difference neg_ℤ
  recompose_both = ground arith

-- Division and remainder make up the dividend, and the remainder is smaller than the divisor and lies
-- between 0 and the dividend.
pub tdiv-tmod :
    (a b : ℤ)
    → 0 < nat_abs b
    → (tdiv a b *ℤ b +ℤ tmod a b ≡ a)
      × (nat_abs (tmod a b) < nat_abs b)
      × (pos_part (tmod a b) ≤ pos_part a)
      × (neg_part (tmod a b) ≤ neg_part a)
unfolding tdiv tmod neg_ℤ
tdiv-tmod (pos m) (pos n) h =
    (recompose _ _ n m (div-add-mod' m n), ground arith, mod-le m n, ground arith)
tdiv-tmod (pos m) (negsuc n) h = (
  recompose_divisor _ _ (suc n) m (div-add-mod' m (suc n)),
  ground arith,
  mod-le m (suc n),
  ground arith,
)
tdiv-tmod (negsuc m) (pos n) h = (
  recompose_dividend _ _ n (suc m) (div-add-mod' (suc m) n),
  ground arith,
  ground arith,
  ground (arith, mod-le (suc m) n),
)
tdiv-tmod (negsuc m) (negsuc n) h = (
  recompose_both _ _ (suc n) (suc m) (div-add-mod' (suc m) (suc n)),
  ground arith,
  ground arith,
  ground (arith, mod-le (suc m) (suc n)),
)
