-- ===== src/Ir/Optimize/Fold.antt =====
-- hir_fold_node of src/compiler/ir.c. It returns 1 on every path, so its result is the program and the
-- count of changes. The walk has fuel: one for each node that it goes down to or along.
use vnt.Base.{ℕ, zero, suc, ◌+◌, ◌||◌, Option, none, some, ◌==◌, if◌then◌else◌, set}
use vnt.Ir.Node.{Opcode, EdgeRole, Payload, Node, Program, no_node, node, node_count, same_role}
use vnt.Ir.Optimize.Values.{
  Floats, HirConstant, of_integer, of_boolean, of_float, hir_constant, unary_operator,
  binary_operator, fold_unary, fold_binary,
}

abbrev pub Changed : Type 0
Changed = Program × ℕ

abbrev pub opcode_of : HirConstant → Opcode
opcode_of (of_integer z) = Opcode.integer
opcode_of (of_boolean b) = Opcode.boolean
opcode_of (of_float w) = Opcode.float

abbrev pub payload_of : HirConstant → Payload
payload_of (of_integer z) = Payload.integer z
payload_of (of_boolean b) = Payload.boolean b
payload_of (of_float w) = Payload.floating w

-- A node rewritten to a literal, its children dropped.
unfoldable pub folded_node : Node → HirConstant → Node
folded_node n v = record n {
  opcode = opcode_of v;
  value = payload_of v;
  first_child = no_node;
  last_child = no_node;
  child_count = 0;
}

abbrev pub write : Program → ℕ → Node → Program
write ir i n = record ir { nodes = set ir.nodes i n }

unfoldable pub replace_by : Changed → ℕ → HirConstant → Changed
unfolding folded_node
replace_by s i v = (write s.0 i (folded_node (node s.0 i) v), s.1 + 1)

-- The first child that has a role, if any.
unfoldable pub find_role : Program → EdgeRole → ℕ → ℕ → ℕ
find_role ir role zero c = no_node
find_role ir role (suc fuel) c =
    let rest = find_role ir role fuel (node ir c).next_sibling in
    if c == no_node then no_node else if same_role (node ir c).role role then c else rest

unfoldable pub hir_child_role : Program → ℕ → EdgeRole → ℕ
hir_child_role ir parent role = find_role ir role (suc (node_count ir)) (node ir parent).first_child

unfoldable pub by_operator : Opcode → Option HirConstant → Option HirConstant → Option HirConstant
by_operator Opcode.unary u b = u
by_operator Opcode.binary u b = b
by_operator _ u b = none

module _ (floats : Floats) where
  -- The value of a unary node whose operand is a constant.
  unfoldable pub unary_result : Program → ℕ → Option HirConstant
  unary_result ir i =
      let c = hir_child_role ir i EdgeRole.operand in
      if c == no_node then none else elim (hir_constant ir c) [
        | none ↦ none
        | some v ↦ elim (unary_operator (node ir i).operation) [
          | none ↦ none
          | some op ↦ fold_unary floats op v
        ]
      ]

  unfoldable pub binary_result : Program → ℕ → ℕ → ℕ → Option HirConstant
  binary_result ir i left right =
      if left == no_node || right == no_node then none else elim (hir_constant ir left) [
        | none ↦ none
        | some a ↦ elim (hir_constant ir right) [
          | none ↦ none
          | some b ↦ elim (binary_operator (node ir i).operation) [
            | none ↦ none
            | some op ↦ fold_binary floats op a b
          ]
        ]
      ]

  unfoldable pub result_of : Program → ℕ → ℕ → ℕ → Option HirConstant
  unfolding by_operator
  result_of ir i left right =
      by_operator (node ir i).opcode (unary_result ir i) (binary_result ir i left right)

  -- What is done to a node behind its children.
  unfoldable pub fold_operation : Changed → ℕ → ℕ → ℕ → Changed
  unfolding result_of replace_by
  fold_operation s i left right = elim (result_of s.0 i left right) [
    | none ↦ s
    | some v ↦ replace_by s i v
  ]

  unfoldable mutual
    unfolding fold_operation

    pub hir_fold_node : ℕ → ℕ → Changed → Option Changed
    hir_fold_node zero i s = none
    hir_fold_node (suc fuel) i s =
        elim (fold_children fuel (node s.0 i).first_child no_node no_node s) [
          | none ↦ none
          | some (s', left, right) ↦ some (fold_operation s' i left right)
        ]

    -- The children from `c` on, with the last left and right operands so far.
    pub fold_children : ℕ → ℕ → ℕ → ℕ → Changed → Option (Changed × ℕ × ℕ)
    fold_children zero c left right s = none
    fold_children (suc fuel) c left right s =
        let is_left = same_role (node s.0 c).role EdgeRole.left in
        let is_right = same_role (node s.0 c).role EdgeRole.right in
        let left' = if is_left then c else left in
        let right' = if is_left then right else if is_right then c else right in
        let folded = hir_fold_node fuel c s in
        if c == no_node then some (s, left, right) else elim folded [
          | none ↦ none
          | some s' ↦ fold_children fuel (node s'.0 c).next_sibling left' right' s'
        ]
