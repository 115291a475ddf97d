-- ===== src/Cfg/Tests.antt =====
-- Runs of the functions of src/compiler/cfg.c on the graph of `var x = 1; print(x)`.
use vnt.Base.{ℕ, ◌≤◌, ◌<◌, ◌≡◌, refl, ◌↔◌, true, false, none, some, [], ◌∷◌, arith, ◌==◌, get_elem?}
use vnt.Base.Int.{pos}
use vnt.Ir.Node.{
  role_index, same_role, text_of, name_eq, Name, Opcode, EdgeRole, Node, Program, no_node, node,
  integer, text, variable_decl, print,
}
use vnt.Ir.Validate.{
  vnt_ir_validate, validate_nodes, validate_node, scan_children, validate_node_shape, role_count,
  role_count_from, lacks, one_parent, walk, push_children, fields_ok, may_have_names, may_have_type,
  needs_text, operation_ok,
}
use vnt.Cfg.Graph.{block_count, Block, Cfg, HasEdgesInside, block, fallthrough, exit}
use vnt.Cfg.Bits.{Bits, set_bit}
use vnt.Cfg.Flow.{Sets, for_from, rounds}
use vnt.Cfg.Cells.{write_in, write_out}
use vnt.Cfg.Variables.{
  index_from, collect_from, collect_node, variable_set_add, collect_variables, variable_index,
  holds, variable_index-hit,
}
use vnt.Cfg.Collected.{Held, Distinct, Mentioned, collect_variables-Distinct}
use vnt.Cfg.Effects.{
  child_role, child_role_from, collect_block_effects, effects_by, mark_variable, reads_node,
  reads_chain, collect_expression_reads,
}
use vnt.Ir.Forest.{IsForest, vnt_ir_validate-IsForest}
use vnt.Cfg.Reads.{Occurs, Reads, collect_expression_reads-Reads}
use vnt.Cfg.Validate.{
  successor_ok, terminator_ok, block_ok, blocks_ok, entries_ok, IsWellFormed,
  IsWellFormed-HasEdgesInside, vnt_cfg_validate, vnt_cfg_validate_iff,
}
use vnt.Cfg.Liveness.Loop.{solve_liveness}
use vnt.Cfg.Liveness.Exact.{IsLiveness, solve_liveness-IsLiveness}
use vnt.Cfg.Assigned.Loop.{
  assign_block, assign_blocks, block_has_predecessor, copy_row, meet, meet_loop, meet_row,
  row_differs, take_seed, transfer_row, solve_assigned,
}
use vnt.Cfg.Assigned.Exact.{IsAssigned, solve_assigned-IsAssigned}
use vnt.Cfg.Analysis.{
  entry_seed, globals, globals_from, member_of, references_ok, seed_globals, seed_parameters,
  unset_from, unset_in_row, Liveness, accepted, may_be_uninitialized, all_references_ok,
  too_many_cells, all_effects, vnt_cfg_compute_liveness, vnt_cfg_check_definite_assignment,
}
use vnt.Cfg.Sound.{IsInput, AnswersLiveness, vnt_cfg_compute_liveness-AnswersLiveness}

abbrev x_name : Name
x_name = 120 ∷ []

abbrev a_node : Opcode → EdgeRole → ℕ → ℕ → ℕ → ℕ → Node
a_node op role first last count next = record {
  opcode = op;
  role = role;
  operation = 0;
  names = [];
  type_name = none;
  first_child = first;
  last_child = last;
  next_sibling = next;
  child_count = count;
  value = text (some x_name);
}

-- The declaration of `x` with the value 1, and the printing of `x`.
abbrev pub declare_and_print : Program
declare_and_print = record {
  nodes =
      a_node Opcode.program EdgeRole.root 1 3 2 no_node
      ∷ a_node variable_decl EdgeRole.statement 2 2 1 3
      ∷ record (a_node Opcode.integer EdgeRole.value no_node no_node 0 no_node) {
        value = integer (pos 1);
      }
      ∷ a_node print EdgeRole.statement 4 4 1 no_node
      ∷ a_node Opcode.variable EdgeRole.value no_node no_node 0 no_node
      ∷ [];
  root = 0;
  optimized_nodes = 0;
}

abbrev straight : ℕ → ℕ → Block
straight instruction next = record {
  instruction = instruction;
  condition = no_node;
  true_successor = next;
  false_successor = no_node;
  terminator = fallthrough;
}

abbrev last_block : Block
last_block = record (straight no_node no_node) { terminator = exit }

abbrev pub in_order : Cfg
in_order = record {
  blocks = straight 1 1 ∷ straight 3 2 ∷ last_block ∷ [];
  entries = 0 ∷ [];
  exit_block = 2;
}

-- The statements the other way round: the variable is read before it is assigned.
abbrev swapped : Cfg
swapped = record {
  blocks = straight 3 1 ∷ straight 1 2 ∷ last_block ∷ [];
  entries = 0 ∷ [];
  exit_block = 2;
}

names_collected : collect_variables declare_and_print ≡ x_name ∷ []
unfolding collect_variables collect_from collect_node variable_set_add text_of name_eq
names_collected = refl

pub input_valid : vnt_ir_validate declare_and_print ≡ true
unfolding vnt_ir_validate node same_role no_node validate_nodes validate_node scan_children
    validate_node_shape role_count role_count_from lacks one_parent walk push_children
input_valid = refl

pub graph_valid : vnt_cfg_validate in_order ≡ true
unfolding vnt_cfg_validate entries_ok blocks_ok block_ok block no_node terminator_ok
graph_valid = refl

order_accepted : vnt_cfg_check_definite_assignment declare_and_print in_order ≡ accepted
unfolding vnt_cfg_check_definite_assignment vnt_ir_validate node same_role no_node validate_nodes
    validate_node scan_children validate_node_shape role_count role_count_from lacks one_parent walk
    push_children fields_ok may_have_names may_have_type needs_text operation_ok text_of role_index
    vnt_cfg_validate entries_ok blocks_ok block_ok block successor_ok terminator_ok
    collect_variables collect_from collect_node variable_set_add holds index_from variable_index
    name_eq all_effects all_references_ok entry_seed globals globals_from member_of references_ok
    seed_globals seed_parameters too_many_cells unset_from unset_in_row assign_block assign_blocks
    block_has_predecessor copy_row meet meet_loop meet_row row_differs solve_assigned take_seed
    transfer_row set_bit write_in write_out child_role child_role_from collect_block_effects
    collect_expression_reads effects_by mark_variable reads_node for_from rounds reads_chain
order_accepted = refl

swap_rejected :
    vnt_cfg_check_definite_assignment declare_and_print swapped ≡ may_be_uninitialized (some x_name)
unfolding vnt_cfg_check_definite_assignment vnt_ir_validate node same_role no_node validate_nodes
    validate_node scan_children validate_node_shape role_count role_count_from lacks one_parent walk
    push_children fields_ok may_have_names may_have_type needs_text operation_ok text_of role_index
    vnt_cfg_validate entries_ok blocks_ok block_ok block successor_ok terminator_ok
    collect_variables collect_from collect_node variable_set_add holds index_from variable_index
    name_eq all_effects all_references_ok entry_seed globals globals_from member_of references_ok
    seed_globals seed_parameters too_many_cells unset_from unset_in_row assign_block assign_blocks
    block_has_predecessor copy_row meet meet_loop meet_row row_differs solve_assigned take_seed
    transfer_row set_bit write_in write_out child_role child_role_from collect_block_effects
    collect_expression_reads effects_by mark_variable reads_node for_from rounds reads_chain
swap_rejected = refl

vnt_ir_validate-IsForest_example : IsForest declare_and_print
vnt_ir_validate-IsForest_example = vnt_ir_validate-IsForest declare_and_print input_valid

links_down : IsForest declare_and_print
links_down = vnt_ir_validate-IsForest declare_and_print input_valid

pub in_order_fits : block_count in_order ≤ no_node
unfolding no_node
in_order_fits = omega arith

in_order-IsInput : IsInput declare_and_print in_order
unfolding all_references_ok references_ok too_many_cells collect_variables collect_from collect_node
    variable_set_add text_of name_eq no_node
in_order-IsInput = record {
  ir_valid = input_valid;
  cfg_valid = graph_valid;
  references = refl;
  blocks_fit = in_order_fits;
  names_fit = omega arith;
  cells_fit = refl;
}

in_order-HasEdgesInside : HasEdgesInside in_order
in_order-HasEdgesInside =
    IsWellFormed-HasEdgesInside in_order in_order_fits
      ((vnt_cfg_validate_iff in_order).0 graph_valid)

-- The second block reads the one variable, the first writes it.
abbrev read_second : Bits
read_second b v = b == 1

abbrev written_first : Bits
written_first b v = b == 0

solve_liveness-IsLiveness_example :
    (t : Sets) × (solve_liveness in_order read_second written_first 1 ≡ some t)
    × IsLiveness in_order read_second written_first 1 t
solve_liveness-IsLiveness_example =
    solve_liveness-IsLiveness in_order read_second written_first 1 in_order-HasEdgesInside

solve_assigned-IsAssigned_example :
    (t : Sets) × (solve_assigned in_order (λ b. b == 0) (λ b v. false) written_first 1 ≡ some t)
    × IsAssigned in_order (λ b. b == 0) (λ b v. false) written_first 1 in_order_fits t
solve_assigned-IsAssigned_example =
    solve_assigned-IsAssigned in_order (λ b. b == 0) (λ b v. false) written_first 1 in_order_fits

vnt_cfg_compute_liveness-AnswersLiveness_example :
    (l : Liveness) × (vnt_cfg_compute_liveness declare_and_print in_order ≡ some l)
    × AnswersLiveness declare_and_print in_order l
vnt_cfg_compute_liveness-AnswersLiveness_example =
    vnt_cfg_compute_liveness-AnswersLiveness declare_and_print in_order in_order-IsInput

vnt_cfg_validate_iff_example : (vnt_cfg_validate in_order ≡ true) ↔ IsWellFormed in_order
vnt_cfg_validate_iff_example = vnt_cfg_validate_iff in_order

collect_expression_reads-Reads_example :
    Reads declare_and_print
      (x_name ∷ [])
      (Occurs declare_and_print (x_name ∷ []) 4)
      (λ v. false)
      (collect_expression_reads declare_and_print (x_name ∷ []) 4 (λ v. false))
collect_expression_reads-Reads_example =
    collect_expression_reads-Reads declare_and_print (x_name ∷ []) links_down 4 (λ v. false)

collect_variables-Distinct_example :
    Distinct (collect_variables declare_and_print)
    × ((x : Name)
        → Held x (collect_variables declare_and_print) ↔ Mentioned x declare_and_print.nodes)
collect_variables-Distinct_example = collect_variables-Distinct declare_and_print

holds_x : holds (x_name ∷ []) x_name ≡ true
unfolding holds name_eq
holds_x = refl

variable_index-hit_example :
    (variable_index (x_name ∷ []) (some x_name) < 1)
    × (get_elem? (x_name ∷ []) (variable_index (x_name ∷ []) (some x_name)) ≡ some x_name)
variable_index-hit_example =
    variable_index-hit (x_name ∷ []) x_name (unfold no_node in omega arith) holds_x
