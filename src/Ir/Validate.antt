-- ===== src/Ir/Validate.antt =====
-- `vnt_ir_validate` of src/compiler/ir.c. Each loop over links has the node count for fuel: the code
-- itself gives up, with the same result, on a chain that is longer.
use vnt.Base.{
  ℕ, zero, suc, ◌+◌, Bool, true, false, not, ◌&&◌, ◌||◌, Option, none, some, List, [], ◌∷◌, ltb,
  leb, ◌==◌, if◌then◌else◌, differ, length,
}
use vnt.Ir.Node.{
  Opcode, EdgeRole, Node, Program, no_node, node, node_count, same_role, text_of, program, print,
  if_op, while_op, function, struct, call, return, string, array, variable_decl, variable, index,
  member, assign, binary, unary, reassign, asm,
}

-- The children of a chain that have a role.
unfoldable pub role_count_from : Program → EdgeRole → ℕ → ℕ → ℕ
role_count_from ir role zero child = 0
role_count_from ir role (suc fuel) child =
    let rest = role_count_from ir role fuel (node ir child).next_sibling in
    if child == no_node then 0 else if same_role (node ir child).role role then suc rest else rest

unfoldable pub role_count : Program → Node → EdgeRole → ℕ
role_count ir n role = role_count_from ir role (suc (node_count ir)) n.first_child

-- None of the roles occurs among the children.
unfoldable pub lacks : Program → Node → List EdgeRole → Bool
lacks ir n [] = true
lacks ir n (r ∷ rs) = role_count ir n r == 0 && lacks ir n rs

unfoldable pub validate_node_shape : Program → Node → Bool
validate_node_shape ir n =
    let count = role_count ir n in
    let children = n.child_count in
    elim n.opcode [
      | program ↦
          count EdgeRole.statement == children
          && lacks ir n (
              EdgeRole.condition ∷ EdgeRole.then_role ∷ EdgeRole.else_role ∷ EdgeRole.body
              ∷ EdgeRole.value ∷ EdgeRole.target ∷ EdgeRole.argument ∷ EdgeRole.element
              ∷ EdgeRole.object ∷ EdgeRole.index ∷ EdgeRole.left ∷ EdgeRole.right ∷ EdgeRole.operand
              ∷ [])
      | print ↦ count EdgeRole.value == children && leb (count EdgeRole.value) 1
      | return ↦ count EdgeRole.value == children && leb (count EdgeRole.value) 1
      | if_op ↦
          (count EdgeRole.condition == 1
            && count EdgeRole.then_role + count EdgeRole.else_role + count EdgeRole.condition
              == children)
          && lacks ir n (
              EdgeRole.statement ∷ EdgeRole.body ∷ EdgeRole.value ∷ EdgeRole.target
              ∷ EdgeRole.argument ∷ EdgeRole.element ∷ EdgeRole.object ∷ EdgeRole.index
              ∷ EdgeRole.left ∷ EdgeRole.right ∷ EdgeRole.operand ∷ [])
      | while_op ↦
          (count EdgeRole.condition == 1
            && count EdgeRole.body + count EdgeRole.condition == children)
          && lacks ir n (
              EdgeRole.statement ∷ EdgeRole.then_role ∷ EdgeRole.else_role ∷ EdgeRole.value
              ∷ EdgeRole.target ∷ EdgeRole.argument ∷ EdgeRole.element ∷ EdgeRole.object
              ∷ EdgeRole.index ∷ EdgeRole.left ∷ EdgeRole.right ∷ EdgeRole.operand ∷ [])
      | function ↦
          count EdgeRole.body == children
          && lacks ir n (
              EdgeRole.condition ∷ EdgeRole.then_role ∷ EdgeRole.else_role ∷ EdgeRole.value
              ∷ EdgeRole.target ∷ EdgeRole.argument ∷ EdgeRole.element ∷ EdgeRole.object
              ∷ EdgeRole.index ∷ EdgeRole.left ∷ EdgeRole.right ∷ EdgeRole.operand ∷ [])
      | call ↦ count EdgeRole.argument == children
      | array ↦ count EdgeRole.element == children
      | variable_decl ↦ count EdgeRole.value == children && leb (count EdgeRole.value) 1
      | reassign ↦ count EdgeRole.value == 1 && children == 1
      | index ↦ (count EdgeRole.object == 1 && count EdgeRole.index == 1) && children == 2
      | member ↦ count EdgeRole.object == 1 && children == 1
      | assign ↦ (count EdgeRole.target == 1 && count EdgeRole.value == 1) && children == 2
      | binary ↦ (count EdgeRole.left == 1 && count EdgeRole.right == 1) && children == 2
      | unary ↦ count EdgeRole.operand == 1 && children == 1
      | _ ↦ children == 0
    ]

abbrev is_none {ℓ} : {A : Type ℓ} → Option A → Bool
is_none none = true
is_none (some a) = false

unfoldable pub needs_text : Opcode → Bool
needs_text string = true
needs_text variable_decl = true
needs_text reassign = true
needs_text variable = true
needs_text member = true
needs_text call = true
needs_text function = true
needs_text struct = true
needs_text asm = true
needs_text _ = false

unfoldable pub may_have_names : Opcode → Bool
may_have_names function = true
may_have_names struct = true
may_have_names _ = false

unfoldable pub may_have_type : Opcode → Bool
may_have_type variable_decl = true
may_have_type reassign = true
may_have_type _ = false

-- The operations run to BINARY_OR, 12, and to UNARY_DEREFERENCE, 3.
unfoldable pub operation_ok : Opcode → ℕ → Bool
operation_ok binary operation = leb operation 12
operation_ok unary operation = leb operation 3
operation_ok _ operation = true

-- The checks on one node that read no link but whether there is a child. The names of a node are
-- a list here, so none of them is NULL.
unfoldable pub fields_ok : Node → Bool
unfolding needs_text may_have_names may_have_type operation_ok text_of
fields_ok n =
    (not (needs_text n.opcode && is_none (text_of n))
      && (length n.names == 0 || may_have_names n.opcode))
    && ((is_none n.type_name || may_have_type n.opcode)
        && (operation_ok n.opcode n.operation
            && not (differ (n.first_child == no_node) (n.child_count == 0))))

abbrev pub Counts : Type 0
Counts = ℕ → ℕ

abbrev pub bump : Counts → ℕ → Counts
bump parents c j = if j == c then suc (parents c) else parents j

pub record Scan : Type 0 where
  pub seen : ℕ
  pub last : ℕ
  pub parents : Counts

-- The walk over the children of node `i`, which counts the parents of each.
unfoldable pub scan_children : Program → ℕ → ℕ → ℕ → Scan → Option Scan
scan_children ir i zero child s = none
scan_children ir i (suc fuel) child s =
    let rest =
      scan_children ir i fuel (node ir child).next_sibling
        (record { seen = s.seen + 1; last = child; parents = bump s.parents child }) in
    if child == no_node
    then some s
    else if leb (node_count ir) child || (child == i || ltb (node_count ir) (s.seen + 1))
    then none
    else if ltb 1 (s.parents child + 1)
    then none
    else rest

-- The checks on node `i`, with the parent counts so far.
unfoldable pub validate_node : Program → ℕ → Counts → Option Counts
unfolding fields_ok
validate_node ir i parents =
    let n = node ir i in
    let scanned =
      scan_children ir i (suc (suc (node_count ir))) n.first_child
        (record { seen = 0; last = no_node; parents = parents }) in
    if fields_ok n
    then elim scanned [
      | none ↦ none
      | some s ↦
          if ((s.seen == n.child_count) && (s.last == n.last_child))
            && ((n.last_child == no_node || (node ir n.last_child).next_sibling == no_node)
                && validate_node_shape ir n)
          then some s.parents
          else none
    ]
    else none

-- for (i = ...; n nodes are left; ++i)
unfoldable pub validate_nodes : Program → ℕ → ℕ → Counts → Option Counts
validate_nodes ir zero i parents = some parents
validate_nodes ir (suc n) i parents = elim (validate_node ir i parents) [
  | none ↦ none
  | some parents' ↦ validate_nodes ir n (i + 1) parents'
]

-- Every node but the root has one parent.
unfoldable pub one_parent : Program → Counts → ℕ → Bool
one_parent ir parents zero = parents ir.root == 0
one_parent ir parents (suc i) = one_parent ir parents i && (i == ir.root || parents i == 1)

abbrev pub Visited : Type 0
Visited = ℕ → Bool

abbrev pub visit : Visited → ℕ → Visited
visit visited c j = if j == c then true else visited j

-- The children of a node onto the stack, `top` entries deep.
unfoldable pub push_children : Program → Visited → ℕ → ℕ → List ℕ → Option (List ℕ)
push_children ir visited zero c stack = none
push_children ir visited (suc fuel) c stack =
    let rest = push_children ir visited fuel (node ir c).next_sibling (c ∷ stack) in
    if c == no_node
    then some stack
    else if leb (node_count ir) c || (visited c || leb (node_count ir) (length stack))
    then none
    else rest

-- The walk from the root, each node reached once; the count of the nodes reached.
unfoldable pub walk : Program → ℕ → Visited → List ℕ → ℕ → Option ℕ
walk ir zero visited stack reached = none
walk ir (suc fuel) visited [] reached = some reached
walk ir (suc fuel) visited (current ∷ stack) reached =
    let pushed =
      push_children ir (visit visited current) (suc (suc (node_count ir)))
        (node ir current).first_child stack in
    if leb (node_count ir) current || visited current then none else elim pushed [
      | none ↦ none
      | some stack' ↦ walk ir fuel (visit visited current) stack' (reached + 1)
    ]

abbrev is_program : Opcode → Bool
is_program program = true
is_program _ = false

unfoldable pub vnt_ir_validate : Program → Bool
vnt_ir_validate ir =
    let root_ok =
      (ltb 0 (node_count ir) && ltb ir.root (node_count ir))
      && (is_program (node ir ir.root).opcode
          && (same_role (node ir ir.root).role EdgeRole.root
              && (node ir ir.root).next_sibling == no_node)) in
    let parents = validate_nodes ir (node_count ir) 0 (λ i. 0) in
    let reached = walk ir (suc (suc (node_count ir))) (λ i. false) (ir.root ∷ []) 0 in
    if root_ok
    then elim parents [
      | none ↦ false
      | some p ↦
          if one_parent ir p (node_count ir)
          then elim reached [ none ↦ false | some n ↦ n == node_count ir ]
          else false
    ]
    else false
