-- ===== src/Cfg/Analysis.antt =====
-- `vnt_cfg_compute_liveness`, its queries, and `vnt_cfg_check_definite_assignment` of
-- src/compiler/cfg.c: the set-up of the loops and what is made of their result. A matrix that would
-- have more cells than a `size_t` counts is refused as the code refuses it; other allocations are taken
-- to succeed. Of the diagnostics the variable that is named is kept.
use vnt.Base.{
  ℕ, zero, suc, ◌+◌, ◌/◌, Bool, true, false, not, ◌&&◌, ◌||◌, Option, none, some, List, [], ◌∷◌,
  ltb, ◌==◌, if◌then◌else◌, length, get_elem?, get_or,
}
use vnt.Ir.Node.{
  Name, Opcode, EdgeRole, Node, Program, no_node, node, node_count, same_role, text_of,
  variable_decl,
}
use vnt.Ir.Validate.{vnt_ir_validate}
use vnt.Cfg.Graph.{Block, Cfg, block_count}
use vnt.Cfg.Bits.{Bits}
use vnt.Cfg.Variables.{collect_variables, variable_index, is_function}
use vnt.Cfg.Effects.{Row, Effects, mark_variable, child_role, collect_block_effects}
use vnt.Cfg.Validate.{vnt_cfg_validate}
use vnt.Cfg.Liveness.Loop.{solve_liveness}
use vnt.Cfg.Assigned.Loop.{solve_assigned}

-- The block's HIR nodes exist, where it has any.
unfoldable pub references_ok : Program → Block → Bool
references_ok ir b =
    (b.instruction == no_node || ltb b.instruction (node_count ir))
    && (b.condition == no_node || ltb b.condition (node_count ir))

unfoldable pub all_references_ok : Program → List Block → Bool
unfolding references_ok
all_references_ok ir [] = true
all_references_ok ir (b ∷ bs) = references_ok ir b && all_references_ok ir bs

-- vars && blocks > (size_t)-1 / vars
unfoldable pub too_many_cells : ℕ → ℕ → Bool
too_many_cells blocks vars = not (vars == 0) && ltb (no_node / vars) blocks

-- The rows of the blocks' effects, the first block's first.
unfoldable pub all_effects : Program → List Name → List Block → Option (List Effects)
all_effects ir names [] = some []
all_effects ir names (b ∷ bs) =
    let rest = all_effects ir names bs in
    elim (collect_block_effects ir names b) [
      | none ↦ none
      | some e ↦ elim rest [ none ↦ none | some es ↦ some (e ∷ es) ]
    ]

abbrev pub no_effects : Effects
no_effects = record { uses = λ v. false; defs = λ v. false }

abbrev pub uses_of : List Effects → Bits
uses_of es b v = (get_or es b no_effects).uses v

abbrev pub defs_of : List Effects → Bits
defs_of es b v = (get_or es b no_effects).defs v

pub record Liveness : Type 0 where
  pub names : List Name
  pub block_count : ℕ
  pub live_in : Bits
  pub live_out : Bits

unfoldable pub vnt_cfg_compute_liveness : Program → Cfg → Option Liveness
vnt_cfg_compute_liveness ir cfg =
    let names = collect_variables ir in
    let vars = length names in
    let effects = all_effects ir names cfg.blocks in
    if vnt_ir_validate ir && vnt_cfg_validate cfg
    then (if too_many_cells (block_count cfg) vars || not (all_references_ok ir cfg.blocks)
        then none
        else elim effects [
          | none ↦ none
          | some es ↦ elim (solve_liveness cfg (uses_of es) (defs_of es) vars) [
            | none ↦ none
            | some s ↦ some (record {
              names = names;
              block_count = block_count cfg;
              live_in = s.ins;
              live_out = s.outs;
            })
          ]
        ])
    else none

unfoldable pub vnt_cfg_variable_live_in : Liveness → ℕ → Name → Bool
vnt_cfg_variable_live_in a b name =
    ltb b a.block_count
    && (not (variable_index a.names (some name) == no_node)
        && a.live_in b (variable_index a.names (some name)))

unfoldable pub vnt_cfg_variable_live_out : Liveness → ℕ → Name → Bool
vnt_cfg_variable_live_out a b name =
    ltb b a.block_count
    && (not (variable_index a.names (some name) == no_node)
        && a.live_out b (variable_index a.names (some name)))

abbrev is_declaration : Opcode → Bool
is_declaration variable_decl = true
is_declaration _ = false

-- The root's declarations that have a value, from the child `c` on.
unfoldable pub globals_from : Program → List Name → ℕ → ℕ → Row → Row
globals_from ir names zero c globals = globals
globals_from ir names (suc fuel) c globals =
    let n = node ir c in
    let declared =
      (same_role n.role EdgeRole.statement && is_declaration n.opcode)
      && not (child_role ir c EdgeRole.value == no_node) in
    let marked = if declared then mark_variable globals names (text_of n) else globals in
    let rest = globals_from ir names fuel n.next_sibling marked in
    if c == no_node then globals else rest

unfoldable pub globals : Program → List Name → Row
globals ir names =
    globals_from ir names (suc (node_count ir)) (node ir ir.root).first_child (λ v. false)

unfoldable pub member_of : List ℕ → ℕ → Bool
member_of [] b = false
member_of (e ∷ es) b = e == b || member_of es b

abbrev pub mark_all : List Name → List Name → Row → Row
mark_all names [] row = row
mark_all names (p ∷ ps) row = mark_all names ps (mark_variable row names (some p))

abbrev pub set_row : Bits → ℕ → Row → Bits
set_row m e r i = if i == e then r else m i

-- Each function, in the order of the nodes, marks its parameters at its entry.
unfoldable pub seed_parameters : List Name → List Node → List ℕ → Bits → Bits
seed_parameters names [] entries seed = seed
seed_parameters names (n ∷ ns) [] seed = seed
seed_parameters names (n ∷ ns) (e ∷ es) seed =
    seed_parameters names ns (if is_function n.opcode then es else e ∷ es)
      (if is_function n.opcode then set_row seed e (mark_all names n.names (seed e)) else seed)

unfoldable pub seed_globals : Row → List ℕ → Bits → Bits
seed_globals g [] seed = seed
seed_globals g (e ∷ es) seed = seed_globals g es (set_row seed e g)

-- The main entry has nothing assigned; the others have the globals and their parameters.
unfoldable pub entry_seed : Program → List Name → List ℕ → Bits
entry_seed ir names [] = λ b v. false
entry_seed ir names (main ∷ functions) =
    seed_parameters names ir.nodes functions
      (seed_globals (globals ir names) functions (λ b v. false))

-- The first cell of a row, and of the rows from `b` on, that is read and not assigned.
unfoldable pub unset_in_row : Bits → Bits → ℕ → ℕ → ℕ → Option ℕ
unset_in_row uses ins b zero v = none
unset_in_row uses ins b (suc n) v =
    let rest = unset_in_row uses ins b n (v + 1) in
    if uses b v && not (ins b v) then some v else rest

unfoldable pub unset_from : Bits → Bits → ℕ → ℕ → ℕ → Option ℕ
unset_from uses ins vars zero b = none
unset_from uses ins vars (suc n) b = elim (unset_in_row uses ins b vars 0) [
  | none ↦ unset_from uses ins vars n (b + 1)
  | some v ↦ some v
]

-- `cut_short` is no outcome of the program: a loop of the model ran out of fuel.
pub data Verdict : Type 0 where
  accepted invalid_input invalid_reference out_of_memory cut_short : Verdict
  may_be_uninitialized : Option Name → Verdict

unfoldable pub vnt_cfg_check_definite_assignment : Program → Cfg → Verdict
vnt_cfg_check_definite_assignment ir cfg =
    let names = collect_variables ir in
    let vars = length names in
    let effects = all_effects ir names cfg.blocks in
    if vnt_ir_validate ir && vnt_cfg_validate cfg
    then (if all_references_ok ir cfg.blocks
        then (if too_many_cells (block_count cfg) vars then out_of_memory else elim effects [
          | none ↦ cut_short
          | some es ↦
              elim (solve_assigned cfg (member_of cfg.entries) (entry_seed ir names cfg.entries)
                (defs_of es) vars) [
                  | none ↦ cut_short
                  | some s ↦ elim (unset_from (uses_of es) s.ins vars (block_count cfg) 0) [
                    | none ↦ accepted
                    | some v ↦ may_be_uninitialized (get_elem? names v)
                  ]
                ]
        ])
        else invalid_reference)
    else invalid_input
