-- ===== src/Ir/Optimize/Keeps.antt =====
-- hir_fold_node of src/compiler/ir.c ends, and what it folds keeps its meaning.
use vnt.Base.{
  ℕ, zero, suc, ◌<◌, ◌≡◌, refl, sym, ap, ◌∙◌, subst, ◌≢◌, inl, inr, ◌||◌, some, arith, ◌==◌,
  Bool-cases, Option-cases,
}
use vnt.Ir.Node.{
  UnaryOperator, BinaryOperator, Opcode, EdgeRole, Node, Program, no_node, node, node_count,
  same_role, same_role-eq,
}
use vnt.Ir.Optimize.Values.{
  fold_unary, fold_binary, Floats, HirConstant, of_integer, of_boolean, of_float, hir_constant,
  unary_operator, binary_operator,
}
use vnt.Ir.Optimize.Fold.{
  write, folded_node, hir_child_role, find_role, unary_result, binary_result,
}
use vnt.Ir.Optimize.Writes.{
  Kept, Kept-write, node-write_folded, hir_constant-write_same, hir_constant-write_other,
}
use vnt.Ir.Optimize.Meaning.{
  OnChain, here, behind, Child, UnaryValues, BinaryValues, Means, means_literal, means_read,
  means_unary, means_binary,
}

-- A node that is no literal once more is as it was.
opcode_folded :
    (n : Node) (v : HirConstant)
    → ((folded_node n v).opcode ≢ Opcode.unary) × ((folded_node n v).opcode ≢ Opcode.binary)
unfolding folded_node
opcode_folded n (of_integer z) = (λ e. cc, λ e. cc)
opcode_folded n (of_boolean b) = (λ e. cc, λ e. cc)
opcode_folded n (of_float w) = (λ e. cc, λ e. cc)

unmoved_unary :
    {ir ir' : Program} (i : ℕ)
    → Kept ir ir'
    → (node ir' i).opcode ≡ Opcode.unary
    → node ir' i ≡ node ir i
unmoved_unary {ir} {ir'} i k h = elim (k.moved i) [
  | inl same ↦ same
  | inr (v, e) ↦ absurd ((opcode_folded (node ir i) v).0 (ap (λ n. n.opcode) (sym e) ∙ h))
]

pub unmoved_binary :
    {ir ir' : Program} (i : ℕ)
    → Kept ir ir'
    → (node ir' i).opcode ≡ Opcode.binary
    → node ir' i ≡ node ir i
unmoved_binary {ir} {ir'} i k h = elim (k.moved i) [
  | inl same ↦ same
  | inr (v, e) ↦ absurd ((opcode_folded (node ir i) v).1 (ap (λ n. n.opcode) (sym e) ∙ h))
]

-- Chains are the same in both programs.
OnChain-Kept : {ir ir' : Program} {c d : ℕ} → Kept ir ir' → OnChain ir' c d → OnChain ir c d
OnChain-Kept k (here ne) = here ne
OnChain-Kept {ir} {ir'} {c} {d} k (behind ne t) =
    behind ne (subst (λ x. OnChain ir x d) (k.next c) (OnChain-Kept k t))

pub OnChain-Kept_back :
    {ir ir' : Program} {c d : ℕ} → Kept ir ir' → OnChain ir c d → OnChain ir' c d
OnChain-Kept_back k (here ne) = here ne
OnChain-Kept_back {ir} {ir'} {c} {d} k (behind ne t) =
    behind ne (subst (λ x. OnChain ir' x d) (sym (k.next c)) (OnChain-Kept_back k t))

Child-Kept :
    {ir ir' : Program} (i : ℕ) {c : ℕ} {role : EdgeRole}
    → Kept ir ir'
    → node ir' i ≡ node ir i
    → Child ir' i role c
    → Child ir i role c
Child-Kept {ir} {ir'} i {c} k same h =
    (OnChain-Kept k (subst (λ n. OnChain ir' n.first_child c) same h.0), sym (k.role c) ∙ h.1)

module _ (U : UnaryValues) (B : BinaryValues) (read : ℕ → HirConstant → Type 0) where
  -- Whatever value a node has in the second program, it has in the first.
  abbrev pub Refines : Program → Program → Type 0
  Refines ir ir' = (j : ℕ) (v : HirConstant) → Means U B read ir' j v → Means U B read ir j v

module _ (floats : Floats) (U : UnaryValues) (B : BinaryValues)
    (unary_folds : (op : UnaryOperator) (a v : HirConstant)
      → fold_unary floats op a ≡ some v
      → U op a v)
    (binary_folds : (op : BinaryOperator) (a b v : HirConstant)
      → fold_binary floats op a b ≡ some v
      → B op a b v)
    (read : ℕ → HirConstant → Type 0) where
  -- One node folded to a value that it has.
  pub Refines-write :
      (ir : Program) (i : ℕ) (w : HirConstant)
      → i < node_count ir
      → Means U B read ir i w
      → Refines U B read ir (write ir i (folded_node (node ir i) w))
  unfolding hir_constant
  Refines-write ir i w h m j v (means_literal e) = elim (node-write_folded ir i w h j) [
    | inl (at, s) ↦
        let same : w ≡ v = cc (hir_constant-write_same ir i w h j at) in
        subst (λ x. Means U B read ir j x) same (subst (λ x. Means U B read ir x w) (sym at) m)
    | inr (ne, s) ↦ means_literal (sym (hir_constant-write_other ir i w h j ne) ∙ e)
  ]
  Refines-write ir i w h m j v (means_read e r) = elim (node-write_folded ir i w h j) [
    | inl (at, s) ↦ absurd (cc (hir_constant-write_same ir i w h j at))
    | inr (ne, s) ↦ means_read (sym (hir_constant-write_other ir i w h j ne) ∙ e) r
  ]
  Refines-write ir i w h m j v (means_unary op code c a e) =
      let k = Kept-write ir i w h in
      let s = unmoved_unary j k op in
      means_unary (ap (λ n. n.opcode) (sym s) ∙ op)
        (ap (λ n. unary_operator n.operation) (sym s) ∙ code) (Child-Kept j k s c)
        (Refines-write ir i w h m _ _ a) e
  Refines-write ir i w h m j v (means_binary op code l r a b e) =
      let k = Kept-write ir i w h in
      let s = unmoved_binary j k op in
      means_binary (ap (λ n. n.opcode) (sym s) ∙ op)
        (ap (λ n. binary_operator n.operation) (sym s) ∙ code) (Child-Kept j k s l)
        (Child-Kept j k s r) (Refines-write ir i w h m _ _ a) (Refines-write ir i w h m _ _ b) e

  -- A child that is found stands on the chain, with the role.
  find_role-Child :
      (ir : Program) (role : EdgeRole) (fuel c d : ℕ)
      → find_role ir role fuel c ≡ d
      → d ≢ no_node
      → OnChain ir c d × ((node ir d).role ≡ role)
  unfolding find_role
  find_role-Child ir role zero c d h ne = absurd (ne (sym h))
  find_role-Child ir role (suc fuel) c d h ne = elim (Bool-cases (c == no_node)) [
    | inl end ↦ absurd (ne (sym (rw end at h)))
    | inr on ↦
        let n : c ≢ no_node = ground arith in
        elim (Bool-cases (same_role (node ir c).role role)) [
          | inl found ↦
              let e : c ≡ d = rw (on, found) at h in
              (
                subst (OnChain ir c) e (here n),
                subst (λ x. (node ir x).role ≡ role) e (same_role-eq _ role found),
              )
          | inr other ↦
              let p =
                find_role-Child ir role fuel (node ir c).next_sibling d (rw (on, other) at h) ne in
              (behind n p.0, p.1)
        ]
  ]

  -- What the operation of a node gives is a value of it.
  pub Means-unary_result :
      (ir : Program) (i : ℕ) (v : HirConstant)
      → (node ir i).opcode ≡ Opcode.unary
      → unary_result floats ir i ≡ some v
      → Means U B read ir i v
  unfolding unary_result hir_child_role
  Means-unary_result ir i v op h =
      let c = hir_child_role ir i EdgeRole.operand in
      elim (Bool-cases (c == no_node)) [
        | inl lost ↦ absurd (cc (rw lost at h))
        | inr on ↦ elim (Option-cases (hir_constant ir c)) [
          | inl ea ↦ absurd (cc (rw (on, ea) at h))
          | inr (a, ea) ↦ elim (Option-cases (unary_operator (node ir i).operation)) [
            | inl eo ↦ absurd (cc (rw (on, ea, eo) at h))
            | inr (o, eo) ↦
                means_unary op eo
                  (find_role-Child ir EdgeRole.operand (suc (node_count ir)) (node ir i).first_child
                    c refl (ground arith))
                  (means_literal ea) (unary_folds o a v (rw (on, ea, eo) at h))
          ]
        ]
      ]

  pub Means-binary_result :
      (ir : Program) (i l r : ℕ) (v : HirConstant)
      → (node ir i).opcode ≡ Opcode.binary
      → (l ≢ no_node → Child ir i EdgeRole.left l)
      → (r ≢ no_node → Child ir i EdgeRole.right r)
      → binary_result floats ir i l r ≡ some v
      → Means U B read ir i v
  unfolding binary_result
  Means-binary_result ir i l r v op cl cr h = elim (Bool-cases (l == no_node || r == no_node)) [
    | inl lost ↦ absurd (cc (rw lost at h))
    | inr on ↦ elim (Option-cases (hir_constant ir l)) [
      | inl ea ↦ absurd (cc (rw (on, ea) at h))
      | inr (a, ea) ↦ elim (Option-cases (hir_constant ir r)) [
        | inl eb ↦ absurd (cc (rw (on, ea, eb) at h))
        | inr (b, eb) ↦ elim (Option-cases (binary_operator (node ir i).operation)) [
          | inl eo ↦ absurd (cc (rw (on, ea, eb, eo) at h))
          | inr (o, eo) ↦
              means_binary op eo (cl (ground arith)) (cr (ground arith)) (means_literal ea)
                (means_literal eb) (binary_folds o a b v (rw (on, ea, eb, eo) at h))
        ]
      ]
    ]
  ]
