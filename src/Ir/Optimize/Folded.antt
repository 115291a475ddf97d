-- ===== src/Ir/Optimize/Folded.antt =====
-- hir_fold_node of src/compiler/ir.c over a whole tree: it ends, keeps every meaning, and keeps the
-- integers within int64_t.
use vnt.Base.{
  ℕ, ◌<◌, ◌≡◌, refl, sym, ◌∙◌, subst, ◌≢◌, ◌⊎◌, inl, inr, Option, some, arith, ltb, ltb→lt,
  Bool-cases, Option-cases,
}
use vnt.Ir.Node.{Opcode, EdgeRole, Program, no_node, node, node_count, node-outside, blank_node}
use vnt.Ir.Node.{UnaryOperator, BinaryOperator}
use vnt.Ir.Optimize.Values.{fold_unary, fold_binary, Floats, HirConstant, hir_constant}
use vnt.Ir.Optimize.Range.{IsInRange, fold_unary-IsInRange, fold_binary-IsInRange}
use vnt.Ir.Optimize.Fold.{
  write, folded_node, Changed, by_operator, replace_by, unary_result, binary_result, result_of,
  fold_operation,
}
use vnt.Ir.Optimize.Writes.{
  Kept, Kept-refl, Kept-trans, Kept-write, node-write_folded, hir_constant-write_same,
  hir_constant-write_other,
}
use vnt.Ir.Optimize.Computes.{Computes, UnaryComputes}
use vnt.Ir.Optimize.Exact.{fold_unary-Computes, fold_binary-Computes}
use vnt.Ir.Optimize.Meaning.{
  UnaryValues, BinaryValues, OnChain, Means, means_literal, means_read, means_unary, means_binary,
}
use vnt.Ir.Optimize.Keeps.{Refines, Refines-write, Means-unary_result, Means-binary_result}

by_operator_cases :
    (o : Opcode) (u b : Option HirConstant) (v : HirConstant)
    → by_operator o u b ≡ some v
    → ((o ≡ Opcode.unary) × (u ≡ some v)) ⊎ ((o ≡ Opcode.binary) × (b ≡ some v))
unfolding by_operator
by_operator_cases Opcode.program u b v h = cc
by_operator_cases Opcode.print u b v h = cc
by_operator_cases Opcode.if_op u b v h = cc
by_operator_cases Opcode.while_op u b v h = cc
by_operator_cases Opcode.function u b v h = cc
by_operator_cases Opcode.struct u b v h = cc
by_operator_cases Opcode.call u b v h = cc
by_operator_cases Opcode.return u b v h = cc
by_operator_cases Opcode.break u b v h = cc
by_operator_cases Opcode.continue u b v h = cc
by_operator_cases Opcode.string u b v h = cc
by_operator_cases Opcode.integer u b v h = cc
by_operator_cases Opcode.float u b v h = cc
by_operator_cases Opcode.boolean u b v h = cc
by_operator_cases Opcode.null u b v h = cc
by_operator_cases Opcode.array u b v h = cc
by_operator_cases Opcode.variable_decl u b v h = cc
by_operator_cases Opcode.variable u b v h = cc
by_operator_cases Opcode.index u b v h = cc
by_operator_cases Opcode.member u b v h = cc
by_operator_cases Opcode.assign u b v h = cc
by_operator_cases Opcode.binary u b v h = inr (refl, h)
by_operator_cases Opcode.unary u b v h = inl (refl, h)
by_operator_cases Opcode.reassign u b v h = cc
by_operator_cases Opcode.asm u b v h = cc

-- Each literal of the program that is an integer is an int64_t.
abbrev pub AreInRange : Program → Type 0
AreInRange ir = (j : ℕ) (v : HirConstant) → hir_constant ir j ≡ some v → IsInRange v

-- What the code makes of constants, as the relations that `Means` takes.
abbrev Folds_unary : Floats → UnaryValues
Folds_unary floats op a v = fold_unary floats op a ≡ some v

abbrev Folds_binary : Floats → BinaryValues
Folds_binary floats op a b v = fold_binary floats op a b ≡ some v

Means-IsInRange :
    (floats : Floats) (ir : Program) (i : ℕ) (v : HirConstant)
    → AreInRange ir
    → Means (Folds_unary floats) (Folds_binary floats) (λ j w. ⊥) ir i v
    → IsInRange v
Means-IsInRange floats ir i v a (means_literal e) = a i v e
Means-IsInRange floats ir i v a (means_read e r) = absurd r
Means-IsInRange floats ir i v a (means_unary {op} {a = x} o code c m e) =
    fold_unary-IsInRange floats op x v (Means-IsInRange floats ir _ x a m) e
Means-IsInRange floats ir i v a (means_binary {op} {a = x} {b = y} o code cl cr m n e) =
    fold_binary-IsInRange floats op x y v (Means-IsInRange floats ir _ x a m) e

AreInRange-write :
    (ir : Program) (i : ℕ) (v : HirConstant)
    → i < node_count ir
    → IsInRange v
    → AreInRange ir
    → AreInRange (write ir i (folded_node (node ir i) v))
AreInRange-write ir i v h r a j w e = elim (node-write_folded ir i v h j) [
  | inl (at, s) ↦
      let same : v ≡ w = cc (hir_constant-write_same ir i v h j at) in subst IsInRange same r
  | inr (ne, s) ↦ a j w (sym (hir_constant-write_other ir i v h j ne) ∙ e)
]

module _ (floats : Floats) where
  -- A program that folding leaves.
  pub record Sound (ir ir' : Program) : Type 1 where
    pub kept : Kept ir ir'
    pub refines :
        (read : ℕ → HirConstant → Type 0)
        → Refines (UnaryComputes floats) (Computes floats) read ir ir'
    pub in_range : AreInRange ir → AreInRange ir'

  pub Sound-refl : (ir : Program) → Sound ir ir
  Sound-refl ir = record { kept = Kept-refl ir; refines = λ read j v m. m; in_range = λ a. a }

  pub Sound-trans : {a b c : Program} → Sound a b → Sound b c → Sound a c
  Sound-trans h k = record {
    kept = Kept-trans h.kept k.kept;
    refines = λ read j v m. h.refines read j v (k.refines read j v m);
    in_range = λ a. k.in_range (h.in_range a);
  }

  -- The operands that a walk over the children found.
  abbrev pub Found : Program → ℕ → EdgeRole → ℕ → Type 0
  Found ir first role c = c ≢ no_node → OnChain ir first c × ((node ir c).role ≡ role)

  result_of-Means :
      (U : UnaryValues) (B : BinaryValues)
      → ((op : UnaryOperator) (a v : HirConstant) → fold_unary floats op a ≡ some v → U op a v)
      → ((op : BinaryOperator) (a b v : HirConstant)
          → fold_binary floats op a b ≡ some v
          → B op a b v)
      → (read : ℕ → HirConstant → Type 0) (ir : Program) (i l r : ℕ) (v : HirConstant)
      → ((node ir i).opcode ≡ Opcode.binary
          → Found ir (node ir i).first_child EdgeRole.left l
            × Found ir (node ir i).first_child EdgeRole.right r)
      → result_of floats ir i l r ≡ some v
      → Means U B read ir i v
  unfolding result_of
  result_of-Means U B fu fb read ir i l r v f h =
      elim (by_operator_cases (node ir i).opcode _ _ v h) [
        | inl (o, e) ↦ Means-unary_result floats U B fu fb read ir i v o e
        | inr (o, e) ↦ Means-binary_result floats U B fu fb read ir i l r v o (f o).0 (f o).1 e
      ]

  result_of-inside :
      (ir : Program) (i l r : ℕ) (v : HirConstant)
      → result_of floats ir i l r ≡ some v
      → i < node_count ir
  unfolding result_of by_operator
  result_of-inside ir i l r v h = elim (Bool-cases (ltb i (node_count ir))) [
    | inl inside ↦ ltb→lt i (node_count ir) inside
    | inr outside ↦ absurd (
        let e : node ir i ≡ blank_node = node-outside ir i (ground arith) in
        let h' : by_operator (node ir i).opcode (unary_result floats ir i)
              (binary_result floats ir i l r)
            ≡ some v =
          h in
        cc (rw e at h'))
  ]

  pub fold_operation-Sound :
      (s : Changed) (i l r : ℕ)
      → ((node s.0 i).opcode ≡ Opcode.binary
          → Found s.0 (node s.0 i).first_child EdgeRole.left l
            × Found s.0 (node s.0 i).first_child EdgeRole.right r)
      → Sound s.0 (fold_operation floats s i l r).0
  unfolding fold_operation replace_by
  fold_operation-Sound s i l r f = elim (Option-cases (result_of floats s.0 i l r)) [
    | inl e ↦ rw (fold_operation, e) (Sound-refl s.0)
    | inr (v, e) ↦
        let inside = result_of-inside s.0 i l r v e in
        rw (fold_operation, e)
          (record {
            kept = Kept-write s.0 i v inside;
            refines = λ read.
                Refines-write floats (UnaryComputes floats) (Computes floats)
                  (fold_unary-Computes floats) (fold_binary-Computes floats) read s.0 i v inside
                  (result_of-Means (UnaryComputes floats) (Computes floats)
                    (fold_unary-Computes floats) (fold_binary-Computes floats) read s.0 i l r v f
                    e);
            in_range = λ a.
                AreInRange-write s.0 i v inside
                  (Means-IsInRange floats s.0 i v a (
                    result_of-Means (Folds_unary floats) (Folds_binary floats) (λ op a w h. h)
                      (λ op a b w h. h) (λ j w. ⊥) s.0 i l r v f e))
                  a;
          })
  ]
