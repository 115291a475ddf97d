-- ===== src/Ir/Optimize/Tests.antt =====
-- Runs of the optimizer of src/compiler/ir.c: hir_fold_node on the tree of `print(2 + -3)`, and an
-- environment of two constants.
use vnt.Base.{
  ℕ, ◌+◌, ◌-◌, ◌*◌, ◌/◌, ◌^◌, ◌≡◌, refl, true, false, Option, none, some, [], ◌∷◌, ltb, leb, ◌==◌,
  if◌then◌else◌,
}
use vnt.Base.Int.{pos, negsuc, ◌+ℤ◌, neg_ℤ, difference}
use vnt.Ir.Node.{
  Opcode, EdgeRole, Node, Program, no_node, node, node_count, same_role, role_index, integer,
  boolean, print, binary, unary, text_of,
}
use vnt.Ir.Validate.{
  vnt_ir_validate, validate_nodes, validate_node, scan_children, validate_node_shape, role_count,
  role_count_from, lacks, one_parent, walk, push_children, fields_ok, may_have_names, may_have_type,
  needs_text, operation_ok,
}
use vnt.Ir.Optimize.Values.{
  Floats, HirConstant, of_integer, fold_integers, fold_binary, fold_unary, checked, literal,
  hir_constant, integer_of, unary_operator, binary_operator,
}
use vnt.Ir.Node.{Name, name_eq}
use vnt.Ir.Optimize.Known.{
  HirConstantEnvironment, hir_constant_remember, hir_constant_invalidate, hir_constants_copy, known,
}
use vnt.Ir.Optimize.Table.{IsTable}
use vnt.Ir.Optimize.Environment.{hir_constant_environment-IsMap}
use vnt.Ir.Optimize.Fold.{
  Changed, hir_fold_node, fold_operation, replace_by, folded_node, by_operator, result_of,
  unary_result, binary_result, hir_child_role, find_role,
}
use vnt.Ir.Optimize.Folded.{Sound}
use vnt.Ir.Optimize.FoldWalk.{hir_fold_node-Sound_root}

-- Arithmetic on whole numbers below 2 ^ 52, which is that of doubles there.
abbrev small_floats : Floats
small_floats = record {
  negated = λ x. x + 2 ^ 63;
  sum = λ x y. x + y;
  minus = λ x y. x - y;
  product = λ x y. x * y;
  quotient = λ x y. x / y;
  isfinite = λ x. ltb x (2 ^ 52);
  same = λ x y. x == y;
  below = λ x y. ltb x y;
  at_most = λ x y. leb x y;
  is_zero = λ x. x == 0;
}

abbrev a_node : Opcode → EdgeRole → ℕ → ℕ → ℕ → ℕ → ℕ → Node
a_node op role code first last count next = record {
  opcode = op;
  role = role;
  operation = code;
  names = [];
  type_name = none;
  first_child = first;
  last_child = last;
  next_sibling = next;
  child_count = count;
  value = boolean false;
}

abbrev print_sum : Program
print_sum = record {
  nodes =
      a_node Opcode.program EdgeRole.root 0 1 1 1 no_node
      ∷ a_node print EdgeRole.statement 0 2 2 1 no_node
      ∷ a_node binary EdgeRole.value 0 3 4 2 no_node
      ∷ record (a_node Opcode.integer EdgeRole.left 0 no_node no_node 0 4) {
        value = integer (pos 2);
      }
      ∷ a_node unary EdgeRole.right 1 5 5 1 no_node
      ∷ record (a_node Opcode.integer EdgeRole.operand 0 no_node no_node 0 no_node) {
        value = integer (pos 3);
      }
      ∷ [];
  root = 0;
  optimized_nodes = 0;
}

print_sum_valid : vnt_ir_validate print_sum ≡ true
unfolding vnt_ir_validate node same_role no_node validate_nodes validate_node scan_children
    validate_node_shape role_count role_count_from lacks one_parent walk push_children fields_ok
    may_have_names may_have_type needs_text operation_ok text_of role_index
print_sum_valid = refl

-- What the node of the sum holds afterwards.
abbrev sum_after : Option Changed → Option (Option HirConstant × ℕ)
sum_after none = none
sum_after (some s) = some (hir_constant s.0 2, s.1)

sum_folded :
    sum_after (hir_fold_node small_floats 14 0 (print_sum, 0))
    ≡ some (some (of_integer (negsuc 0)), 2)
unfolding hir_fold_node node same_role no_node role_index hir_constant literal integer_of
    fold_operation replace_by folded_node by_operator result_of unary_result binary_result
    hir_child_role find_role unary_operator binary_operator fold_unary fold_binary fold_integers
    checked neg_ℤ ◌+ℤ◌ difference
sum_folded = refl

hir_fold_node-Sound_root_example :
    (s : Changed) × (hir_fold_node small_floats (2 * node_count print_sum + 2) 0 (print_sum, 0)
      ≡ some s)
    × Sound small_floats print_sum s.0
hir_fold_node-Sound_root_example = hir_fold_node-Sound_root small_floats print_sum print_sum_valid

abbrev one_known : HirConstantEnvironment
one_known =
    record { name = 120 ∷ []; constant = of_integer (pos 1) }
    ∷ record { name = 121 ∷ []; constant = of_integer (pos 2) }
    ∷ []

one_known-IsTable : IsTable one_known
unfolding known name_eq
one_known-IsTable = (refl, (refl, tt))

hir_constant_environment-IsMap_example :
    (IsTable (hir_constant_remember one_known (some (120 ∷ [])) (of_integer (pos 3)))
      × ((m : Name)
          → known (hir_constant_remember one_known (some (120 ∷ [])) (of_integer (pos 3))) m
            ≡ (if name_eq (120 ∷ []) m then some (of_integer (pos 3)) else known one_known m)))
    × (IsTable (hir_constant_invalidate one_known (120 ∷ []))
        × ((m : Name)
            → known (hir_constant_invalidate one_known (120 ∷ [])) m
              ≡ (if name_eq (120 ∷ []) m then none else known one_known m)))
    × (IsTable (hir_constants_copy [] one_known)
        × ((m : Name) → known (hir_constants_copy [] one_known) m ≡ known one_known m))
hir_constant_environment-IsMap_example =
    hir_constant_environment-IsMap one_known (120 ∷ []) (of_integer (pos 3)) one_known-IsTable
