-- ===== src/Cfg/Effects.antt =====
-- What a block reads and writes: `collect_expression_reads` and `collect_block_effects` of
-- src/compiler/cfg.c. A row of a bit matrix is a function of the variable's index.
use vnt.Base.{
  ℕ, zero, suc, ◌*◌, Bool, true, false, not, ◌&&◌, ◌||◌, Option, none, some, List, leb, ◌==◌,
  if◌then◌else◌,
}
use vnt.Ir.Node.{
  Name, Opcode, EdgeRole, Program, no_node, node, node_count, same_role, text_of, variable,
  variable_decl, reassign, print, return, assign,
}
use vnt.Cfg.Graph.{Block}
use vnt.Cfg.Variables.{variable_index}

abbrev pub Row : Type 0
Row = ℕ → Bool

-- The first child with a role, from `c` on.
unfoldable pub child_role_from : Program → EdgeRole → ℕ → ℕ → ℕ
child_role_from ir role zero c = no_node
child_role_from ir role (suc fuel) c =
    let rest = child_role_from ir role fuel (node ir c).next_sibling in
    if c == no_node then no_node else if same_role (node ir c).role role then c else rest

unfoldable pub child_role : Program → ℕ → EdgeRole → ℕ
child_role ir parent role =
    if leb (node_count ir) parent
    then no_node
    else child_role_from ir role (suc (node_count ir)) (node ir parent).first_child

unfoldable pub mark_variable : Row → List Name → Option Name → Row
mark_variable bits names name i =
    if i == variable_index names name && not (variable_index names name == no_node)
    then true
    else bits i

abbrev pub is_variable : Opcode → Bool
is_variable variable = true
is_variable _ = false

-- The walk over an expression's tree; `none` is a walk that ran out of fuel.
unfoldable mutual
  pub reads_node : Program → List Name → ℕ → ℕ → Row → Option Row
  reads_node ir names zero n uses = none
  reads_node ir names (suc fuel) n uses = elim (n == no_node || leb (node_count ir) n) [
    | true ↦ some uses
    | false ↦ elim (is_variable (node ir n).opcode) [
      | true ↦ some (mark_variable uses names (text_of (node ir n)))
      | false ↦ reads_chain ir names fuel (node ir n).first_child uses
    ]
  ]

  pub reads_chain : Program → List Name → ℕ → ℕ → Row → Option Row
  reads_chain ir names zero c uses = none
  reads_chain ir names (suc fuel) c uses = elim (c == no_node) [
    | true ↦ some uses
    | false ↦ elim (reads_node ir names fuel c uses) [
      | none ↦ none
      | some u ↦ reads_chain ir names fuel (node ir c).next_sibling u
    ]
  ]

abbrev pub walk_fuel : Program → ℕ
walk_fuel ir = suc (suc (2 * node_count ir))

unfoldable pub collect_expression_reads : Program → List Name → ℕ → Row → Option Row
collect_expression_reads ir names n uses = reads_node ir names (walk_fuel ir) n uses

pub record Effects : Type 0 where
  pub uses : Row
  pub defs : Row

infixl 5 ◌>>=◌
abbrev pub ◌>>=◌ {ℓ κ} : {A : Type ℓ} {B : Type κ} → Option A → (A → Option B) → Option B
none >>= f = none
some a >>= f = f a

module _ (ir : Program) (names : List Name) where
  abbrev pub reads : ℕ → Effects → Option Effects
  reads n e = do u ← collect_expression_reads ir names n e.uses; some (record e { uses = u })

  abbrev pub defines : Option Name → Effects → Effects
  defines name e = record e { defs = mark_variable e.defs names name }

  -- The switch on the opcode of the statement at index `i`.
  unfoldable pub effects_by : Opcode → ℕ → Effects → Option Effects
  effects_by variable_decl i e =
      let value = child_role ir i EdgeRole.value in
      if value == no_node
      then some e
      else (do e' ← reads value e; some (defines (text_of (node ir i)) e'))
  effects_by reassign i e = do
    e' ← reads (child_role ir i EdgeRole.value) e
    some (defines (text_of (node ir i)) e')
  effects_by print i e = reads (child_role ir i EdgeRole.value) e
  effects_by return i e = reads (child_role ir i EdgeRole.value) e
  effects_by assign i e =
      let value = child_role ir i EdgeRole.value in
      let target = child_role ir i EdgeRole.target in
      if not (target == no_node) && is_variable (node ir target).opcode
      then reads value (defines (text_of (node ir target)) e)
      else (do e' ← reads target e; reads value e')
  effects_by _ i e = reads i e

  unfoldable pub collect_block_effects : Block → Option Effects
  unfolding effects_by
  collect_block_effects b = do
    e ←
        (if b.condition == no_node
          then some (record { uses = λ v. false; defs = λ v. false })
          else reads b.condition (record { uses = λ v. false; defs = λ v. false }))
    if b.instruction == no_node
        then some e
        else effects_by (node ir b.instruction).opcode b.instruction e
