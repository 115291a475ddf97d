-- ===== src/Ir/Optimize/Meaning.antt =====
-- The values of an expression of the program tree in include/vnt/ir.h, as a relation.
use vnt.Base.{ℕ, ◌≡◌, ◌≢◌, none, some}
use vnt.Ir.Node.{Opcode, EdgeRole, Program, no_node, node, BinaryOperator, UnaryOperator}
use vnt.Ir.Optimize.Values.{HirConstant, hir_constant, unary_operator, binary_operator}

module _ (ir : Program) where
  -- A node of the chain of siblings from another on.
  pub data OnChain : ℕ → ℕ → Type 0 where
    here : {c : ℕ} → c ≢ no_node → OnChain c c
    behind : {c d : ℕ} → c ≢ no_node → OnChain (node ir c).next_sibling d → OnChain c d

-- A child of a node, with a role.
abbrev pub Child : Program → ℕ → EdgeRole → ℕ → Type 0
Child ir i role c = OnChain ir (node ir i).first_child c × ((node ir c).role ≡ role)

abbrev pub UnaryValues : Type 1
UnaryValues = UnaryOperator → HirConstant → HirConstant → Type 0

abbrev pub BinaryValues : Type 1
BinaryValues = BinaryOperator → HirConstant → HirConstant → HirConstant → Type 0

-- `read i v`: the node `i`, a variable, a call or another leaf of the arithmetic, may give `v`. What an
-- operation gives is `U` and `B`.
module _ (U : UnaryValues) (B : BinaryValues) (read : ℕ → HirConstant → Type 0) (ir : Program) where
  pub data Means : ℕ → HirConstant → Type 0 where
    means_literal : {i : ℕ} {v : HirConstant} → hir_constant ir i ≡ some v → Means i v
    means_read : {i : ℕ} {v : HirConstant} → hir_constant ir i ≡ none → read i v → Means i v
    means_unary :
        {i c : ℕ} {op : UnaryOperator} {a v : HirConstant}
        → (node ir i).opcode ≡ Opcode.unary
        → unary_operator (node ir i).operation ≡ some op
        → Child ir i EdgeRole.operand c
        → Means c a
        → U op a v
        → Means i v
    means_binary :
        {i l r : ℕ} {op : BinaryOperator} {a b v : HirConstant}
        → (node ir i).opcode ≡ Opcode.binary
        → binary_operator (node ir i).operation ≡ some op
        → Child ir i EdgeRole.left l
        → Child ir i EdgeRole.right r
        → Means l a
        → Means r b
        → B op a b v
        → Means i v
