-- ===== src/Cfg/Variables.antt =====
-- The variable set of src/compiler/cfg.c. An allocation is taken to succeed, so an addition does.
use vnt.Base.{
  ℕ, suc, ◌+◌, ◌≤◌, ◌<◌, ◌≡◌, ap, ◌∙◌, inl, inr, Bool, true, false, ◌||◌, Option, none, some, List,
  [], ◌∷◌, ◌++◌, arith, if◌then◌else◌, Bool-cases, length, get_elem?,
}
use vnt.Ir.Node.{
  Name, name_eq, name_eq_iff, Opcode, Node, Program, no_node, text_of, variable, variable_decl,
  reassign, function,
}

-- strcmp against each name in turn; NULL has no index.
unfoldable pub index_from : List Name → Name → ℕ → ℕ
index_from [] name i = no_node
index_from (n ∷ names) name i =
    let rest = index_from names name (i + 1) in if name_eq n name then i else rest

unfoldable pub variable_index : List Name → Option Name → ℕ
variable_index names none = no_node
variable_index names (some name) = index_from names name 0

unfoldable pub holds : List Name → Name → Bool
holds [] name = false
holds (n ∷ names) name = name_eq n name || holds names name

unfoldable pub variable_set_add : List Name → Option Name → List Name
unfolding holds
variable_set_add names none = names
variable_set_add names (some name) = if holds names name then names else names ++ name ∷ []

abbrev pub names_variable : Opcode → Bool
names_variable variable = true
names_variable variable_decl = true
names_variable reassign = true
names_variable _ = false

abbrev pub is_function : Opcode → Bool
is_function function = true
is_function _ = false

abbrev pub add_names : List Name → List Name → List Name
add_names names [] = names
add_names names (p ∷ ps) = add_names (variable_set_add names (some p)) ps

unfoldable pub collect_node : List Name → Node → List Name
collect_node names n =
    let with_text = if names_variable n.opcode then variable_set_add names (text_of n) else names in
    if is_function n.opcode then add_names with_text n.names else with_text

unfoldable pub collect_from : List Name → List Node → List Name
collect_from names [] = names
collect_from names (n ∷ ns) = collect_from (collect_node names n) ns

unfoldable pub collect_variables : Program → List Name
collect_variables ir = collect_from [] ir.nodes

index_from-hit :
    (names : List Name) (n : Name) (i : ℕ)
    → i + length names ≤ no_node
    → holds names n ≡ true
    → (j : ℕ) × (j < length names) × (index_from names n i ≡ i + j) × (get_elem? names j ≡ some n)
unfolding index_from holds
index_from-hit [] n i b h = cc
index_from-hit (m ∷ names) n i b h = elim (Bool-cases (name_eq m n)) [
  | inl e ↦ rw e (0, omega arith, omega arith, ap some ((name_eq_iff m n).0 e))
  | inr ne ↦
      let k = index_from-hit names n (i + 1) (omega arith) (ground arith) in
      rw ne (suc k.0, omega (arith, k.1), k.2 ∙ omega arith, k.3)
]

-- A name that the set holds, a set of no more names than there are indices, has an index, and the
-- set's name there is that name.
pub variable_index-hit :
    (names : List Name) (n : Name)
    → length names ≤ no_node
    → holds names n ≡ true
    → (variable_index names (some n) < length names)
      × (get_elem? names (variable_index names (some n)) ≡ some n)
unfolding variable_index
variable_index-hit names n b h =
    let k = index_from-hit names n 0 (omega arith) h in
    let e : index_from names n 0 ≡ k.0 = k.2 ∙ omega arith in rw e (k.1, k.3)
