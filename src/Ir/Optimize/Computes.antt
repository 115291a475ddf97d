-- ===== src/Ir/Optimize/Computes.antt =====
-- What the operators of include/vnt/operators.h compute on constants, apart from the code that folds
-- them: integers exactly, within int64_t; a division rounds towards zero; doubles by the machine.
use vnt.Base.{ℕ, ◌+◌, ◌≤◌, ◌<◌, ◌≡◌, ◌≢◌, ◌↔◌, ◌⊎◌, Bool, true, false}
use vnt.Base.Int.{ℤ, pos, pos_part, neg_part, nat_abs, in_int64, int64_min, ◌+ℤ◌, ◌-ℤ◌, ◌*ℤ◌}
use vnt.Ir.Node.{
  BinaryOperator, UnaryOperator, add, subtract, multiply, divide, modulo, equal, not_equal, greater,
  less, greater_equal, less_equal, and, or, negate,
}
use vnt.Ir.Optimize.Values.{Floats, HirConstant, of_integer, of_boolean, of_float}

-- x < y
abbrev pub Below : ℤ → ℤ → Type 0
Below x y = pos_part x + neg_part y < pos_part y + neg_part x

-- The comparisons of integers, with what they say; ⊥ for an operator that is none.
abbrev pub IntegersCompare : BinaryOperator → ℤ → ℤ → Bool → Type 0
IntegersCompare equal x y b = (b ≡ true) ↔ (x ≡ y)
IntegersCompare not_equal x y b = (b ≡ true) ↔ (x ≢ y)
IntegersCompare greater x y b = (b ≡ true) ↔ Below y x
IntegersCompare less x y b = (b ≡ true) ↔ Below x y
IntegersCompare greater_equal x y b = (b ≡ true) ↔ (¬ Below x y)
IntegersCompare less_equal x y b = (b ≡ true) ↔ (¬ Below y x)
IntegersCompare _ x y b = ⊥

-- `q` and `r` are the quotient and the remainder of x by y.
pub record Divides (x y q r : ℤ) : Type 0 where
  pub divisor : y ≢ pos 0
  pub identity : q *ℤ y +ℤ r ≡ x
  pub smaller : nat_abs r < nat_abs y
  pub below_dividend : (pos_part r ≤ pos_part x) × (neg_part r ≤ neg_part x)

abbrev pub IntegersCompute : BinaryOperator → ℤ → ℤ → ℤ → Type 0
IntegersCompute add x y z = (x +ℤ y ≡ z) × (in_int64 z ≡ true)
IntegersCompute subtract x y z = (x -ℤ y ≡ z) × (in_int64 z ≡ true)
IntegersCompute multiply x y z = (x *ℤ y ≡ z) × (in_int64 z ≡ true)
IntegersCompute divide x y z = (r : ℤ) × Divides x y z r
IntegersCompute modulo x y z = (q : ℤ) × Divides x y q z
IntegersCompute _ x y z = ⊥

abbrev pub BooleansCompute : BinaryOperator → Bool → Bool → Bool → Type 0
BooleansCompute and x y b = (b ≡ true) ↔ ((x ≡ true) × (y ≡ true))
BooleansCompute or x y b = (b ≡ true) ↔ ((x ≡ true) ⊎ (y ≡ true))
BooleansCompute equal x y b = (b ≡ true) ↔ (x ≡ y)
BooleansCompute not_equal x y b = (b ≡ true) ↔ (x ≢ y)
BooleansCompute _ x y b = ⊥

module _ (floats : Floats) where
  abbrev pub FloatsCompute : BinaryOperator → ℕ → ℕ → ℕ → Type 0
  FloatsCompute add x y w = (floats.sum x y ≡ w) × (floats.isfinite w ≡ true)
  FloatsCompute subtract x y w = (floats.minus x y ≡ w) × (floats.isfinite w ≡ true)
  FloatsCompute multiply x y w = (floats.product x y ≡ w) × (floats.isfinite w ≡ true)
  FloatsCompute divide x y w =
      (floats.is_zero y ≡ false) × (floats.quotient x y ≡ w) × (floats.isfinite w ≡ true)
  FloatsCompute _ x y w = ⊥

  abbrev pub FloatsCompare : BinaryOperator → ℕ → ℕ → Bool → Type 0
  FloatsCompare equal x y b = (b ≡ true) ↔ (floats.same x y ≡ true)
  FloatsCompare not_equal x y b = (b ≡ true) ↔ (floats.same x y ≡ false)
  FloatsCompare greater x y b = (b ≡ true) ↔ (floats.below y x ≡ true)
  FloatsCompare less x y b = (b ≡ true) ↔ (floats.below x y ≡ true)
  FloatsCompare greater_equal x y b = (b ≡ true) ↔ (floats.at_most y x ≡ true)
  FloatsCompare less_equal x y b = (b ≡ true) ↔ (floats.at_most x y ≡ true)
  FloatsCompare _ x y b = ⊥

  -- The operation gives the last constant on the other two, which are of one kind.
  abbrev pub Computes : BinaryOperator → HirConstant → HirConstant → HirConstant → Type 0
  Computes op (of_integer x) (of_integer y) (of_integer z) = IntegersCompute op x y z
  Computes op (of_integer x) (of_integer y) (of_boolean b) = IntegersCompare op x y b
  Computes op (of_boolean x) (of_boolean y) (of_boolean b) = BooleansCompute op x y b
  Computes op (of_float x) (of_float y) (of_float w) = FloatsCompute op x y w
  Computes op (of_float x) (of_float y) (of_boolean b) = FloatsCompare op x y b
  Computes _ _ _ _ = ⊥

  abbrev pub UnaryComputes : UnaryOperator → HirConstant → HirConstant → Type 0
  UnaryComputes UnaryOperator.not (of_boolean x) (of_boolean b) = (b ≡ true) ↔ (x ≡ false)
  UnaryComputes negate (of_integer x) (of_integer z) = (x ≢ int64_min) × (x +ℤ z ≡ pos 0)
  UnaryComputes negate (of_float x) (of_float w) =
      (floats.negated x ≡ w) × (floats.isfinite w ≡ true)
  UnaryComputes _ _ _ = ⊥
