-- ===== src/Cfg/BuildTests.antt =====
-- Runs of `vnt_cfg_build` of src/compiler/cfg.c.
use vnt.Base.{ℕ, ◌≡◌, refl, Bool, true, none, [], ◌∷◌}
use vnt.Ir.Node.{
  same_role, role_index, text_of, boolean_of, Opcode, EdgeRole, Node, Program, no_node, node,
  boolean, while_op, program,
}
use vnt.Ir.Validate.{
  vnt_ir_validate, validate_nodes, validate_node, scan_children, validate_node_shape, role_count,
  role_count_from, lacks, one_parent, walk, push_children, fields_ok, may_have_names, may_have_type,
  needs_text, operation_ok,
}
use vnt.Cfg.Graph.{block, block_count}
use vnt.Cfg.Validate.{
  vnt_cfg_validate_iff, block_ok, blocks_ok, entries_ok, successor_ok, terminator_ok,
  vnt_cfg_validate,
}
use vnt.Cfg.Tests.{declare_and_print, in_order, graph_valid, in_order_fits}
use vnt.Cfg.Prune.{
  Build, built, refused, vnt_cfg_build, checked, clean_up, keep_blocks, new_index,
  prune_unreachable_blocks, reach, reach_all, reach_entries, reach_round, reach_successor,
  rename_block, rename_cfg, rename_successor, simplify_block, simplify_constant_branches,
}
use vnt.Cfg.Build.{
  new_block, build_by, build_entry, build_functions, build_items, build_list, build_sequence,
  build_statement, close_loop, items_from, jump_to, build_graph,
}
use vnt.Cfg.Effects.{child_role, child_role_from}
use vnt.Cfg.Pruned.{IsReach}
use vnt.Cfg.CleanUp.{Pruning, prune_unreachable_blocks-Pruning}

abbrev a_node : Opcode → EdgeRole → ℕ → ℕ → ℕ → Node
a_node op role first last count = record {
  opcode = op;
  role = role;
  operation = 0;
  names = [];
  type_name = none;
  first_child = first;
  last_child = last;
  next_sibling = no_node;
  child_count = count;
  value = boolean true;
}

-- `while true {}`
abbrev endless_loop : Program
endless_loop = record {
  nodes =
      a_node program EdgeRole.root 1 1 1
      ∷ a_node while_op EdgeRole.statement 2 2 1
      ∷ a_node Opcode.boolean EdgeRole.condition no_node no_node 0
      ∷ [];
  root = 0;
  optimized_nodes = 0;
}

endless_valid : vnt_ir_validate endless_loop ≡ true
unfolding vnt_ir_validate validate_nodes validate_node scan_children validate_node_shape role_count
    role_count_from lacks one_parent walk push_children fields_ok may_have_names may_have_type
    needs_text operation_ok node same_role no_node role_index text_of boolean_of
endless_valid = refl

endless_refused : vnt_cfg_build endless_loop ≡ refused
unfolding vnt_cfg_build checked clean_up keep_blocks new_index prune_unreachable_blocks reach
    reach_all reach_entries reach_round reach_successor rename_block rename_cfg rename_successor
    simplify_block simplify_constant_branches node same_role no_node role_index text_of boolean_of
    vnt_ir_validate validate_nodes validate_node scan_children validate_node_shape role_count
    role_count_from lacks one_parent walk push_children fields_ok may_have_names may_have_type
    needs_text operation_ok new_block build_by build_entry build_functions build_items build_list
    build_sequence build_statement close_loop items_from jump_to build_graph child_role
    child_role_from block_ok blocks_ok entries_ok successor_ok terminator_ok vnt_cfg_validate block
endless_refused = refl

blocks_built : Build → ℕ
blocks_built (built cfg) = block_count cfg
blocks_built _ = 0

three_blocks : blocks_built (vnt_cfg_build declare_and_print) ≡ 3
unfolding blocks_built vnt_cfg_build checked clean_up keep_blocks new_index prune_unreachable_blocks
    reach reach_all reach_entries reach_round reach_successor rename_block rename_cfg
    rename_successor simplify_block simplify_constant_branches node same_role no_node role_index
    text_of boolean_of vnt_ir_validate validate_nodes validate_node scan_children
    validate_node_shape role_count role_count_from lacks one_parent walk push_children fields_ok
    may_have_names may_have_type needs_text operation_ok new_block build_by build_entry
    build_functions build_items build_list build_sequence build_statement close_loop items_from
    jump_to build_graph child_role child_role_from block_ok blocks_ok entries_ok successor_ok
    terminator_ok vnt_cfg_validate block
three_blocks = refl

prune_unreachable_blocks-Pruning_example :
    (r : ℕ → Bool) × IsReach in_order r × Pruning in_order r (prune_unreachable_blocks in_order)
prune_unreachable_blocks-Pruning_example =
    prune_unreachable_blocks-Pruning in_order in_order_fits
      ((vnt_cfg_validate_iff in_order).0 graph_valid)
