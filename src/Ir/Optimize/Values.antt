-- ===== src/Ir/Optimize/Values.antt =====
-- The constants that the optimizer of src/compiler/ir.c computes with, and one operation on them:
-- hir_constant and the tests of hir_fold_node. The machine's arithmetic on doubles is a parameter, on
-- their bit patterns; overflow of int64_t is tested as `__builtin_add_overflow` documents it.
use vnt.Base.{
  ℕ, Bool, false, not, ◌&&◌, ◌||◌, Option, none, some, [], ◌∷◌, leb, if◌then◌else◌, differ,
  get_elem?,
}
use vnt.Base.Int.{
  ℤ, pos, ◌+ℤ◌, ◌-ℤ◌, ◌*ℤ◌, neg_ℤ, tdiv, tmod, ◌==ℤ◌, lt_ℤ, int64_min, in_int64, negsuc,
}
use vnt.Ir.Node.{
  BinaryOperator, UnaryOperator, Opcode, Payload, Node, Program, node, node_count, add, subtract,
  multiply, divide, modulo, equal, not_equal, greater, less, greater_equal, less_equal, and, or,
  negate, reference, dereference, integer, boolean, floating,
}

-- The arithmetic of doubles.
pub record Floats : Type 0 where
  pub negated : ℕ → ℕ
  pub sum : ℕ → ℕ → ℕ
  pub minus : ℕ → ℕ → ℕ
  pub product : ℕ → ℕ → ℕ
  pub quotient : ℕ → ℕ → ℕ
  pub isfinite : ℕ → Bool
  pub same : ℕ → ℕ → Bool
  pub below : ℕ → ℕ → Bool
  pub at_most : ℕ → ℕ → Bool
  pub is_zero : ℕ → Bool

pub data HirConstant : Type 0 where
  of_integer : ℤ → HirConstant
  of_boolean : Bool → HirConstant
  of_float : ℕ → HirConstant

-- The members of the payload's union that an opcode reads.
unfoldable pub integer_of : Payload → ℤ
integer_of (integer z) = z
integer_of _ = pos 0

unfoldable pub floating_of : Payload → ℕ
floating_of (floating w) = w
floating_of _ = 0

unfoldable pub truth_of : Payload → Bool
truth_of (boolean b) = b
truth_of _ = false

unfoldable pub literal : Node → Option HirConstant
unfolding integer_of floating_of truth_of
literal n = elim n.opcode [
  | Opcode.integer ↦ some (of_integer (integer_of n.value))
  | Opcode.boolean ↦ some (of_boolean (truth_of n.value))
  | Opcode.float ↦ some (of_float (floating_of n.value))
  | _ ↦ none
]

unfoldable pub hir_constant : Program → ℕ → Option HirConstant
unfolding literal
hir_constant ir i = if leb (node_count ir) i then none else literal (node ir i)

-- The enumerations of include/vnt/operators.h.
unfoldable pub binary_operator : ℕ → Option BinaryOperator
binary_operator k =
    get_elem?
      (add ∷ subtract ∷ multiply ∷ divide ∷ modulo ∷ equal ∷ not_equal ∷ greater ∷ less
        ∷ greater_equal ∷ less_equal ∷ and ∷ or ∷ [])
      k

unfoldable pub unary_operator : ℕ → Option UnaryOperator
unary_operator k = get_elem? (UnaryOperator.not ∷ negate ∷ reference ∷ dereference ∷ []) k

-- What fits in an int64_t.
unfoldable pub checked : ℤ → Option HirConstant
checked z = if in_int64 z then some (of_integer z) else none

-- y && !(x == INT64_MIN && y == -1)
unfoldable pub divisible : ℤ → ℤ → Bool
divisible x y = not (y ==ℤ pos 0) && not (x ==ℤ int64_min && y ==ℤ negsuc 0)

unfoldable pub fold_integers : BinaryOperator → ℤ → ℤ → Option HirConstant
unfolding checked divisible
fold_integers add x y = checked (x +ℤ y)
fold_integers subtract x y = checked (x -ℤ y)
fold_integers multiply x y = checked (x *ℤ y)
fold_integers divide x y = if divisible x y then some (of_integer (tdiv x y)) else none
fold_integers modulo x y = if divisible x y then some (of_integer (tmod x y)) else none
fold_integers equal x y = some (of_boolean (x ==ℤ y))
fold_integers not_equal x y = some (of_boolean (not (x ==ℤ y)))
fold_integers greater x y = some (of_boolean (lt_ℤ y x))
fold_integers less x y = some (of_boolean (lt_ℤ x y))
fold_integers greater_equal x y = some (of_boolean (not (lt_ℤ x y)))
fold_integers less_equal x y = some (of_boolean (not (lt_ℤ y x)))
fold_integers and x y = none
fold_integers or x y = none

unfoldable pub fold_booleans : BinaryOperator → Bool → Bool → Option HirConstant
fold_booleans and x y = some (of_boolean (x && y))
fold_booleans or x y = some (of_boolean (x || y))
fold_booleans equal x y = some (of_boolean (not (differ x y)))
fold_booleans not_equal x y = some (of_boolean (differ x y))
fold_booleans _ x y = none

module _ (floats : Floats) where
  -- if (isfinite(w))
  unfoldable pub finite : ℕ → Option HirConstant
  finite w = if floats.isfinite w then some (of_float w) else none

  unfoldable pub fold_floats : BinaryOperator → ℕ → ℕ → Option HirConstant
  unfolding finite
  fold_floats add x y = finite (floats.sum x y)
  fold_floats subtract x y = finite (floats.minus x y)
  fold_floats multiply x y = finite (floats.product x y)
  fold_floats divide x y = if floats.is_zero y then none else finite (floats.quotient x y)
  fold_floats equal x y = some (of_boolean (floats.same x y))
  fold_floats not_equal x y = some (of_boolean (not (floats.same x y)))
  fold_floats greater x y = some (of_boolean (floats.below y x))
  fold_floats less x y = some (of_boolean (floats.below x y))
  fold_floats greater_equal x y = some (of_boolean (floats.at_most y x))
  fold_floats less_equal x y = some (of_boolean (floats.at_most x y))
  fold_floats _ x y = none

  unfoldable pub fold_binary : BinaryOperator → HirConstant → HirConstant → Option HirConstant
  fold_binary op (of_integer x) (of_integer y) = fold_integers op x y
  fold_binary op (of_boolean x) (of_boolean y) = fold_booleans op x y
  fold_binary op (of_float x) (of_float y) = fold_floats op x y
  fold_binary op _ _ = none

  unfoldable pub fold_unary : UnaryOperator → HirConstant → Option HirConstant
  fold_unary UnaryOperator.not (of_boolean b) = some (of_boolean (not b))
  fold_unary negate (of_integer z) = if z ==ℤ int64_min then none else some (of_integer (neg_ℤ z))
  fold_unary negate (of_float w) = finite (floats.negated w)
  fold_unary _ _ = none
