-- ===== src/Ir/Optimize/Range.antt =====
-- The arithmetic of the optimizer in src/compiler/ir.c stays within int64_t.
use vnt.Base.{
  ℕ, zero, suc, ◌≡◌, refl, subst, inl, inr, Bool, true, false, none, some, arith, if◌then◌else◌,
  Bool-cases,
}
use native.Mathlib.Nat.{div-le_self, div-add-mod, div-add-mod'}
use vnt.Base.Int.{◌+ℤ◌, ◌-ℤ◌, ◌*ℤ◌, ℤ, pos, negsuc, in_int64, int64_min, neg_ℤ, tdiv, tmod, ◌==ℤ◌}
use vnt.Ir.Node.{
  BinaryOperator, UnaryOperator, add, subtract, multiply, divide, modulo, equal, not_equal, greater,
  less, greater_equal, less_equal, and, or, negate, reference, dereference,
}
use vnt.Ir.Optimize.Values.{
  HirConstant, of_integer, of_boolean, of_float, checked, divisible, fold_integers, fold_booleans,
  fold_floats, fold_binary, fold_unary, finite, Floats,
}

-- An integer constant is an int64_t.
abbrev pub IsInRange : HirConstant → Type 0
IsInRange (of_integer z) = in_int64 z ≡ true
IsInRange _ = Unit

neg_ℤ-IsInRange :
    (z : ℤ) → in_int64 z ≡ true → (z ==ℤ int64_min) ≡ false → in_int64 (neg_ℤ z) ≡ true
unfolding neg_ℤ
neg_ℤ-IsInRange z h d = ground arith

tdiv-IsInRange : (x y : ℤ) → in_int64 x ≡ true → divisible x y ≡ true → in_int64 (tdiv x y) ≡ true
unfolding tdiv divisible neg_ℤ
tdiv-IsInRange (pos m) (pos n) h d = ground (arith, div-le_self m n)
tdiv-IsInRange (pos m) (negsuc n) h d = ground (arith, div-le_self m (suc n))
tdiv-IsInRange (negsuc m) (pos n) h d = ground (arith, div-le_self (suc m) n)
tdiv-IsInRange (negsuc m) (negsuc zero) h d = ground (arith, div-add-mod (suc m) 1)
tdiv-IsInRange (negsuc m) (negsuc (suc n)) h d = ground (arith, div-add-mod' (suc m) (suc (suc n)))

tmod-IsInRange : (x y : ℤ) → in_int64 x ≡ true → in_int64 (tmod x y) ≡ true
unfolding tmod neg_ℤ
tmod-IsInRange x y h = ground arith

checked-IsInRange : (z : ℤ) (v : HirConstant) → checked z ≡ some v → IsInRange v
unfolding checked
checked-IsInRange z v h = elim (Bool-cases (in_int64 z)) [
  | inl fits ↦ let e : of_integer z ≡ v = ground arith in subst IsInRange e fits
  | inr over ↦ absurd (ground arith)
]

-- A conditional result, of a value in range.
guarded-IsInRange :
    (b : Bool) (w v : HirConstant)
    → (b ≡ true → IsInRange w)
    → (if b then some w else none) ≡ some v
    → IsInRange v
guarded-IsInRange true w v k h = let e : w ≡ v = cc in subst IsInRange e (k refl)
guarded-IsInRange false w v k h = cc

truth-IsInRange : (b : Bool) (v : HirConstant) → some (of_boolean b) ≡ some v → IsInRange v
truth-IsInRange b v h = let e : of_boolean b ≡ v = cc in subst IsInRange e tt

fold_integers-IsInRange :
    (op : BinaryOperator) (x y : ℤ) (v : HirConstant)
    → in_int64 x ≡ true
    → fold_integers op x y ≡ some v
    → IsInRange v
unfolding fold_integers
fold_integers-IsInRange add x y v h e = checked-IsInRange (x +ℤ y) v e
fold_integers-IsInRange subtract x y v h e = checked-IsInRange (x -ℤ y) v e
fold_integers-IsInRange multiply x y v h e = checked-IsInRange (x *ℤ y) v e
fold_integers-IsInRange divide x y v h e =
    guarded-IsInRange (divisible x y) _ v (tdiv-IsInRange x y h) e
fold_integers-IsInRange modulo x y v h e =
    guarded-IsInRange (divisible x y) _ v (λ d. tmod-IsInRange x y h) e
fold_integers-IsInRange equal x y v h e = truth-IsInRange _ v e
fold_integers-IsInRange not_equal x y v h e = truth-IsInRange _ v e
fold_integers-IsInRange greater x y v h e = truth-IsInRange _ v e
fold_integers-IsInRange less x y v h e = truth-IsInRange _ v e
fold_integers-IsInRange greater_equal x y v h e = truth-IsInRange _ v e
fold_integers-IsInRange less_equal x y v h e = truth-IsInRange _ v e
fold_integers-IsInRange and x y v h e = cc
fold_integers-IsInRange or x y v h e = cc

module _ (floats : Floats) where
  fold_booleans-IsInRange :
      (op : BinaryOperator) (x y : Bool) (v : HirConstant)
      → fold_booleans op x y ≡ some v
      → IsInRange v
  unfolding fold_booleans
  fold_booleans-IsInRange op x y (of_integer z) h = ground arith
  fold_booleans-IsInRange op x y (of_boolean b) h = tt
  fold_booleans-IsInRange op x y (of_float w) h = tt

  fold_floats-IsInRange :
      (op : BinaryOperator) (x y : ℕ) (v : HirConstant)
      → fold_floats floats op x y ≡ some v
      → IsInRange v
  unfolding fold_floats finite
  fold_floats-IsInRange op x y (of_integer z) h = ground arith
  fold_floats-IsInRange op x y (of_boolean b) h = tt
  fold_floats-IsInRange op x y (of_float w) h = tt

  pub fold_binary-IsInRange :
      (op : BinaryOperator) (a b v : HirConstant)
      → IsInRange a
      → fold_binary floats op a b ≡ some v
      → IsInRange v
  unfolding fold_binary
  fold_binary-IsInRange op (of_integer x) (of_integer y) v h e =
      fold_integers-IsInRange op x y v h e
  fold_binary-IsInRange op (of_boolean x) (of_boolean y) v h e = fold_booleans-IsInRange op x y v e
  fold_binary-IsInRange op (of_float x) (of_float y) v h e = fold_floats-IsInRange op x y v e
  fold_binary-IsInRange op (of_integer x) (of_boolean y) v h e = cc
  fold_binary-IsInRange op (of_integer x) (of_float y) v h e = cc
  fold_binary-IsInRange op (of_boolean x) (of_integer y) v h e = cc
  fold_binary-IsInRange op (of_boolean x) (of_float y) v h e = cc
  fold_binary-IsInRange op (of_float x) (of_integer y) v h e = cc
  fold_binary-IsInRange op (of_float x) (of_boolean y) v h e = cc

  pub fold_unary-IsInRange :
      (op : UnaryOperator) (a v : HirConstant)
      → IsInRange a
      → fold_unary floats op a ≡ some v
      → IsInRange v
  unfolding fold_unary finite
  fold_unary-IsInRange UnaryOperator.not (of_integer z) v h e = cc
  fold_unary-IsInRange negate (of_integer z) v h e = elim (Bool-cases (z ==ℤ int64_min)) [
    | inl least ↦ absurd (ground arith)
    | inr other ↦
        let same : of_integer (neg_ℤ z) ≡ v = ground arith in
        subst IsInRange same (neg_ℤ-IsInRange z h other)
  ]
  fold_unary-IsInRange reference (of_integer z) v h e = cc
  fold_unary-IsInRange dereference (of_integer z) v h e = cc
  fold_unary-IsInRange op a (of_boolean b) h e = tt
  fold_unary-IsInRange op a (of_float w) h e = tt
  fold_unary-IsInRange op (of_boolean z) (of_integer b) h e = ground arith
  fold_unary-IsInRange op (of_float z) (of_integer b) h e = ground arith
