-- ===== src/Ir/Node.antt =====
-- include/vnt/ir.h and include/vnt/operators.h: the nodes of the flat program tree. A node's links are
-- indices into the node array; `no_node` is VNT_IR_NO_NODE, the largest `size_t`. A string is the
-- list of its bytes, a `char *` that may be NULL an option of one, and the union of a node's payload
-- a sum. The node array's capacity is not modelled: an allocation is taken to succeed.
use vnt.Base.{
  ℕ, zero, suc, ◌-◌, ◌^◌, ◌≤◌, ◌≡◌, refl, sym, ap, ◌∙◌, ◌↔◌, Bool, true, false, ◌&&◌, Option, none,
  List, [], ◌∷◌, arith, ◌==◌, ==_iff, and-eq-true, length, get_or,
}
use vnt.Base.Int.{ℤ}

abbrev pub Name : Type 0
Name = List ℕ

-- strcmp(a, b) == 0
unfoldable pub name_eq : Name → Name → Bool
name_eq [] [] = true
name_eq (x ∷ a) (y ∷ b) = x == y && name_eq a b
name_eq _ _ = false

pub name_eq_iff : (a b : Name) → (name_eq a b ≡ true) ↔ (a ≡ b)
unfolding name_eq
name_eq_iff [] [] = (λ h. refl, λ e. refl)
name_eq_iff [] (y ∷ b) = (λ h. cc, λ e. cc)
name_eq_iff (x ∷ a) [] = (λ h. cc, λ e. cc)
name_eq_iff (x ∷ a) (y ∷ b) = (
  λ h.
      let p = and-eq-true (x == y) (name_eq a b) h in
      cc ((==_iff x y).0 p.0, (name_eq_iff a b).0 p.1),
  λ e. let p : x ≡ y = cc in let q : a ≡ b = cc in rw ((==_iff x y).1 p, (name_eq_iff a b).1 q),
)

pub data BinaryOperator : Type 0 where
  add subtract multiply divide modulo : BinaryOperator
  equal not_equal greater less greater_equal less_equal : BinaryOperator
  and or : BinaryOperator

pub data UnaryOperator : Type 0 where
  not negate reference dereference : UnaryOperator

pub data Opcode : Type 0 where
  program print if_op while_op function struct call return break continue : Opcode
  string integer float boolean null array : Opcode
  variable_decl variable index member assign binary unary reassign asm : Opcode

pub data EdgeRole : Type 0 where
  root statement condition then_role else_role body value target : EdgeRole
  argument element object index left right operand : EdgeRole

-- A float is kept as its bit pattern.
pub data Payload : Type 0 where
  integer : ℤ → Payload
  boolean : Bool → Payload
  floating : ℕ → Payload
  text : Option Name → Payload

pub record Node : Type 0 where
  pub opcode : Opcode
  pub role : EdgeRole
  pub operation : ℕ
  pub names : List Name
  pub type_name : Option Name
  pub first_child : ℕ
  pub last_child : ℕ
  pub next_sibling : ℕ
  pub child_count : ℕ
  pub value : Payload

pub record Program : Type 0 where
  pub nodes : List Node
  pub root : ℕ
  pub optimized_nodes : ℕ

unfoldable pub no_node : ℕ
no_node = 2 ^ 64 - 1

abbrev pub node_count : Program → ℕ
node_count ir = length ir.nodes

-- What stands where nothing is stored; no code reads it within the bounds that it checks.
abbrev pub blank_node : Node
blank_node = record {
  opcode = null;
  role = EdgeRole.root;
  operation = 0;
  names = [];
  type_name = none;
  first_child = no_node;
  last_child = no_node;
  next_sibling = no_node;
  child_count = 0;
  value = boolean false;
}

-- ir->nodes[i]
unfoldable pub node : Program → ℕ → Node
node ir i = get_or ir.nodes i blank_node

get_or-outside {ℓ} : {A : Type ℓ} (xs : List A) (i : ℕ) (d : A) → length xs ≤ i → get_or xs i d ≡ d
get_or-outside [] i d h = refl
get_or-outside (x ∷ xs) zero d h = absurd (omega arith)
get_or-outside (x ∷ xs) (suc i) d h = get_or-outside xs i d (omega arith)

pub node-outside : (ir : Program) (i : ℕ) → node_count ir ≤ i → node ir i ≡ blank_node
unfolding node
node-outside ir i h = get_or-outside ir.nodes i blank_node h

unfoldable pub role_index : EdgeRole → ℕ
role_index root = 0
role_index statement = 1
role_index condition = 2
role_index then_role = 3
role_index else_role = 4
role_index body = 5
role_index value = 6
role_index target = 7
role_index argument = 8
role_index element = 9
role_index object = 10
role_index index = 11
role_index left = 12
role_index right = 13
role_index operand = 14

unfoldable pub same_role : EdgeRole → EdgeRole → Bool
unfolding role_index
same_role a b = role_index a == role_index b

-- Every role, at its number.
abbrev role_at : ℕ → EdgeRole
role_at k =
    get_or
      (root ∷ statement ∷ condition ∷ then_role ∷ else_role ∷ body ∷ value ∷ target ∷ argument
        ∷ element ∷ object ∷ index ∷ left ∷ right ∷ operand ∷ [])
      k root

role_at-role_index : (a : EdgeRole) → role_at (role_index a) ≡ a
unfolding role_index
role_at-role_index root = refl
role_at-role_index statement = refl
role_at-role_index condition = refl
role_at-role_index then_role = refl
role_at-role_index else_role = refl
role_at-role_index body = refl
role_at-role_index value = refl
role_at-role_index target = refl
role_at-role_index argument = refl
role_at-role_index element = refl
role_at-role_index object = refl
role_at-role_index index = refl
role_at-role_index left = refl
role_at-role_index right = refl
role_at-role_index operand = refl

pub same_role-eq : (a b : EdgeRole) → same_role a b ≡ true → a ≡ b
unfolding same_role
same_role-eq a b h =
    sym (role_at-role_index a)
    ∙ (ap role_at ((==_iff (role_index a) (role_index b)).0 h) ∙ role_at-role_index b)

-- The text of a node, NULL where the payload is of another kind.
unfoldable pub text_of : Node → Option Name
text_of n = elim n.value [ text t ↦ t | _ ↦ none ]

unfoldable pub boolean_of : Node → Bool
boolean_of n = elim n.value [ boolean b ↦ b | _ ↦ false ]
