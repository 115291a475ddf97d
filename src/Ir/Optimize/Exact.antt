-- ===== src/Ir/Optimize/Exact.antt =====
-- What hir_fold_node of src/compiler/ir.c makes of two constants is what the operator computes.
use vnt.Base.{
  ℕ, ◌<◌, ◌≡◌, refl, ap, subst, ◌↔◌, inl, inr, Bool, true, false, not, ◌&&◌, ◌||◌, none, some,
  arith, if◌then◌else◌, Bool-cases, differ,
}
use vnt.Base.Int.{
  ℤ, pos, nat_abs, in_int64, int64_min, ◌+ℤ◌, ◌-ℤ◌, ◌*ℤ◌, ◌==ℤ◌, lt_ℤ, neg_ℤ, difference, tdiv,
  tmod, tdiv-tmod,
}
use vnt.Ir.Node.{
  BinaryOperator, UnaryOperator, add, subtract, multiply, divide, modulo, equal, not_equal, greater,
  less, greater_equal, less_equal, and, or, negate, reference, dereference,
}
use vnt.Ir.Optimize.Values.{
  Floats, HirConstant, of_integer, of_boolean, of_float, checked, divisible, fold_integers,
  fold_booleans, finite, fold_floats, fold_binary, fold_unary,
}
use vnt.Ir.Optimize.Computes.{
  Below, Divides, IntegersCompute, FloatsCompute, Computes, UnaryComputes,
}

==ℤ_iff : (x y : ℤ) → ((x ==ℤ y) ≡ true) ↔ (x ≡ y)
==ℤ_iff x y = ground arith

lt_ℤ_iff : (x y : ℤ) → (lt_ℤ x y ≡ true) ↔ Below x y
lt_ℤ_iff x y = ground arith

not_iff : {A : Type 0} (b : Bool) → (b ≡ true) ↔ A → (not b ≡ true) ↔ (¬ A)
not_iff true h = (λ e. cc, λ n. absurd (n (h.0 refl)))
not_iff false h = (λ e a. let k = h.1 a in cc, λ n. refl)

Computes-checked :
    (floats : Floats) (op : BinaryOperator) (x y z : ℤ) (v : HirConstant)
    → (in_int64 z ≡ true → IntegersCompute op x y z)
    → checked z ≡ some v
    → Computes floats op (of_integer x) (of_integer y) v
unfolding checked
Computes-checked floats op x y z v k h = elim (Bool-cases (in_int64 z)) [
  | inl fits ↦
      let e : of_integer z ≡ v = ground arith in
      subst (Computes floats op (of_integer x) (of_integer y)) e (k fits)
  | inr over ↦ absurd (ground arith)
]

module _ (floats : Floats) (op : BinaryOperator) (a b : HirConstant) where
  Computes-value :
      (w v : HirConstant) → Computes floats op a b w → some w ≡ some v → Computes floats op a b v
  Computes-value w v k h = let e : w ≡ v = cc in subst (Computes floats op a b) e k

  Computes-guarded :
      (t : Bool) (w v : HirConstant)
      → (t ≡ true → Computes floats op a b w)
      → (if t then some w else none) ≡ some v
      → Computes floats op a b v
  Computes-guarded true w v k h = Computes-value w v (k refl) h
  Computes-guarded false w v k h = cc

divisor-nonzero : (x y : ℤ) → divisible x y ≡ true → 0 < nat_abs y
unfolding divisible
divisor-nonzero x y d = ground arith

tdiv-Divides : (x y : ℤ) → divisible x y ≡ true → Divides x y (tdiv x y) (tmod x y)
tdiv-Divides x y d =
    let n = divisor-nonzero x y d in
    let laws = tdiv-tmod x y n in
    record {
      divisor = λ e. let z : nat_abs y ≡ 0 = ap nat_abs e in absurd (omega (arith, z));
      identity = laws.0;
      smaller = laws.1;
      below_dividend = (laws.2, laws.3);
    }

fold_integers-Computes :
    (floats : Floats) (op : BinaryOperator) (x y : ℤ) (v : HirConstant)
    → fold_integers op x y ≡ some v
    → Computes floats op (of_integer x) (of_integer y) v
unfolding fold_integers
fold_integers-Computes f add x y v h = Computes-checked f add x y (x +ℤ y) v (λ k. (refl, k)) h
fold_integers-Computes f subtract x y v h =
    Computes-checked f subtract x y (x -ℤ y) v (λ k. (refl, k)) h
fold_integers-Computes f multiply x y v h =
    Computes-checked f multiply x y (x *ℤ y) v (λ k. (refl, k)) h
fold_integers-Computes f divide x y v h =
    Computes-guarded f divide (of_integer x) (of_integer y) (divisible x y) (of_integer (tdiv x y))
      v (λ d. (tmod x y, tdiv-Divides x y d)) h
fold_integers-Computes f modulo x y v h =
    Computes-guarded f modulo (of_integer x) (of_integer y) (divisible x y) (of_integer (tmod x y))
      v (λ d. (tdiv x y, tdiv-Divides x y d)) h
fold_integers-Computes f equal x y v h =
    Computes-value f equal (of_integer x) (of_integer y) _ v (==ℤ_iff x y) h
fold_integers-Computes f not_equal x y v h =
    Computes-value f not_equal (of_integer x) (of_integer y) (of_boolean (not (x ==ℤ y))) v
      (not_iff _ (==ℤ_iff x y)) h
fold_integers-Computes f greater x y v h =
    Computes-value f greater (of_integer x) (of_integer y) (of_boolean (lt_ℤ y x)) v (lt_ℤ_iff y x)
      h
fold_integers-Computes f less x y v h =
    Computes-value f less (of_integer x) (of_integer y) (of_boolean (lt_ℤ x y)) v (lt_ℤ_iff x y) h
fold_integers-Computes f greater_equal x y v h =
    Computes-value f greater_equal (of_integer x) (of_integer y) (of_boolean (not (lt_ℤ x y))) v
      (not_iff _ (lt_ℤ_iff x y)) h
fold_integers-Computes f less_equal x y v h =
    Computes-value f less_equal (of_integer x) (of_integer y) (of_boolean (not (lt_ℤ y x))) v
      (not_iff _ (lt_ℤ_iff y x)) h
fold_integers-Computes f and x y v h = cc
fold_integers-Computes f or x y v h = cc

fold_booleans-Computes :
    (floats : Floats) (op : BinaryOperator) (x y : Bool) (v : HirConstant)
    → fold_booleans op x y ≡ some v
    → Computes floats op (of_boolean x) (of_boolean y) v
unfolding fold_booleans
fold_booleans-Computes f and x y v h =
    Computes-value f and (of_boolean x) (of_boolean y) (of_boolean (x && y)) v (ground arith) h
fold_booleans-Computes f or x y v h =
    Computes-value f or (of_boolean x) (of_boolean y) (of_boolean (x || y)) v (ground arith) h
fold_booleans-Computes f equal x y v h =
    Computes-value f equal (of_boolean x) (of_boolean y) (of_boolean (not (differ x y))) v
      (ground arith) h
fold_booleans-Computes f not_equal x y v h =
    Computes-value f not_equal (of_boolean x) (of_boolean y) (of_boolean (differ x y)) v
      (ground arith) h
fold_booleans-Computes f _ x y v h = cc

module _ (floats : Floats) where
  Computes-finite :
      (op : BinaryOperator) (x y w : ℕ) (v : HirConstant)
      → (floats.isfinite w ≡ true → FloatsCompute floats op x y w)
      → finite floats w ≡ some v
      → Computes floats op (of_float x) (of_float y) v
  unfolding finite
  Computes-finite op x y w v k h =
      Computes-guarded floats op (of_float x) (of_float y) (floats.isfinite w) (of_float w) v k h

  fold_floats-Computes :
      (op : BinaryOperator) (x y : ℕ) (v : HirConstant)
      → fold_floats floats op x y ≡ some v
      → Computes floats op (of_float x) (of_float y) v
  unfolding fold_floats
  fold_floats-Computes add x y v h = Computes-finite add x y (floats.sum x y) v (λ k. (refl, k)) h
  fold_floats-Computes subtract x y v h =
      Computes-finite subtract x y (floats.minus x y) v (λ k. (refl, k)) h
  fold_floats-Computes multiply x y v h =
      Computes-finite multiply x y (floats.product x y) v (λ k. (refl, k)) h
  fold_floats-Computes divide x y v h = elim (Bool-cases (floats.is_zero y)) [
    | inl nought ↦ let e = rw nought at h in absurd cc
    | inr other ↦
        Computes-finite divide x y (floats.quotient x y) v (λ k. (other, refl, k)) (rw other at h)
  ]
  fold_floats-Computes equal x y v h =
      Computes-value floats equal (of_float x) (of_float y) (of_boolean (floats.same x y)) v
        (λ e. e, λ e. e) h
  fold_floats-Computes not_equal x y v h =
      Computes-value floats not_equal (of_float x) (of_float y) (of_boolean (not (floats.same x y)))
        v (ground arith) h
  fold_floats-Computes greater x y v h =
      Computes-value floats greater (of_float x) (of_float y) (of_boolean (floats.below y x)) v
        (λ e. e, λ e. e) h
  fold_floats-Computes less x y v h =
      Computes-value floats less (of_float x) (of_float y) (of_boolean (floats.below x y)) v
        (λ e. e, λ e. e) h
  fold_floats-Computes greater_equal x y v h =
      Computes-value floats greater_equal (of_float x) (of_float y)
        (of_boolean (floats.at_most y x)) v (λ e. e, λ e. e) h
  fold_floats-Computes less_equal x y v h =
      Computes-value floats less_equal (of_float x) (of_float y) (of_boolean (floats.at_most x y)) v
        (λ e. e, λ e. e) h
  fold_floats-Computes _ x y v h = cc

  pub fold_binary-Computes :
      (op : BinaryOperator) (a b v : HirConstant)
      → fold_binary floats op a b ≡ some v
      → Computes floats op a b v
  unfolding fold_binary
  fold_binary-Computes op (of_integer x) (of_integer y) v e =
      fold_integers-Computes floats op x y v e
  fold_binary-Computes op (of_boolean x) (of_boolean y) v e =
      fold_booleans-Computes floats op x y v e
  fold_binary-Computes op (of_float x) (of_float y) v e = fold_floats-Computes op x y v e
  fold_binary-Computes op (of_integer x) (of_boolean y) v e = cc
  fold_binary-Computes op (of_integer x) (of_float y) v e = cc
  fold_binary-Computes op (of_boolean x) (of_integer y) v e = cc
  fold_binary-Computes op (of_boolean x) (of_float y) v e = cc
  fold_binary-Computes op (of_float x) (of_integer y) v e = cc
  fold_binary-Computes op (of_float x) (of_boolean y) v e = cc

  neg_ℤ-sum : (z : ℤ) → z +ℤ neg_ℤ z ≡ pos 0
  unfolding ◌+ℤ◌ neg_ℤ difference
  neg_ℤ-sum z = ground arith

  UnaryComputes-value :
      (op : UnaryOperator) (a w v : HirConstant)
      → UnaryComputes floats op a w
      → some w ≡ some v
      → UnaryComputes floats op a v
  UnaryComputes-value op a w v k h = let e : w ≡ v = cc in subst (UnaryComputes floats op a) e k

  pub fold_unary-Computes :
      (op : UnaryOperator) (a v : HirConstant)
      → fold_unary floats op a ≡ some v
      → UnaryComputes floats op a v
  unfolding fold_unary finite
  fold_unary-Computes UnaryOperator.not (of_boolean b) v h =
      UnaryComputes-value UnaryOperator.not (of_boolean b) (of_boolean (not b)) v (ground arith) h
  fold_unary-Computes UnaryOperator.not (of_integer z) v h = cc
  fold_unary-Computes UnaryOperator.not (of_float w) v h = cc
  fold_unary-Computes negate (of_integer z) v h = elim (Bool-cases (z ==ℤ int64_min)) [
    | inl least ↦ let e = rw least at h in absurd cc
    | inr other ↦
        UnaryComputes-value negate (of_integer z) (of_integer (neg_ℤ z)) v
          (λ e. let k = (==ℤ_iff z int64_min).1 e in cc, neg_ℤ-sum z) (rw other at h)
  ]
  fold_unary-Computes negate (of_float w) v h =
      elim (Bool-cases (floats.isfinite (floats.negated w))) [
        | inl fine ↦
            UnaryComputes-value negate (of_float w) (of_float (floats.negated w)) v (refl, fine)
              (rw fine at h)
        | inr infinite ↦ let e = rw infinite at h in absurd cc
      ]
  fold_unary-Computes negate (of_boolean b) v h = cc
  fold_unary-Computes reference (of_boolean b) v h = cc
  fold_unary-Computes reference (of_integer b) v h = cc
  fold_unary-Computes reference (of_float b) v h = cc
  fold_unary-Computes dereference (of_boolean b) v h = cc
  fold_unary-Computes dereference (of_integer b) v h = cc
  fold_unary-Computes dereference (of_float b) v h = cc
