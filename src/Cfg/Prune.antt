-- ===== src/Cfg/Prune.antt =====
-- The clean-up passes of `vnt_cfg_build` in src/compiler/cfg.c, and the whole of it.
use vnt.Base.{
  ℕ, zero, suc, ◌+◌, Bool, true, false, not, ◌||◌, Option, none, some, List, [], ◌∷◌, map, leb,
  ◌==◌, if◌then◌else◌, count_below, mark,
}
use vnt.Ir.Node.{Opcode, Program, no_node, node, node_count, boolean_of, boolean}
use vnt.Ir.Validate.{vnt_ir_validate}
use vnt.Cfg.Graph.{Terminator, Block, Cfg, branch, jump, block, block_count}
use vnt.Cfg.Validate.{vnt_cfg_validate}
use vnt.Cfg.Effects.{◌>>=◌}
use vnt.Cfg.Build.{build_graph}

abbrev pub is_branch : Terminator → Bool
is_branch branch = true
is_branch _ = false

abbrev pub is_boolean : Opcode → Bool
is_boolean boolean = true
is_boolean _ = false

-- A branch on a boolean literal is a jump.
unfoldable pub simplify_block : Program → Block → Block
simplify_block ir b =
    let condition = node ir b.condition in
    if not (is_branch b.terminator) || leb (node_count ir) b.condition
    then b
    else if not (is_boolean condition.opcode)
    then b
    else record {
      instruction = no_node;
      condition = no_node;
      true_successor = if boolean_of condition then b.true_successor else b.false_successor;
      false_successor = no_node;
      terminator = jump;
    }

unfoldable pub simplify_constant_branches : Program → Cfg → Cfg
simplify_constant_branches ir cfg = record cfg { blocks = map (simplify_block ir) cfg.blocks }

-- The flags of the blocks that are reached, and the stack of those to be looked at.
pub record Search : Type 0 where
  pub reachable : ℕ → Bool
  pub stack : List ℕ

-- A block that is reached for the first time is marked and pushed.
unfoldable pub reach : ℕ → Search → Search
reach at s =
    if s.reachable at then s else record { reachable = mark s.reachable at; stack = at ∷ s.stack }

unfoldable pub reach_entries : ℕ → List ℕ → Search → Option Search
reach_entries count [] s = some s
reach_entries count (e ∷ es) s = if leb count e then none else reach_entries count es (reach e s)

unfoldable pub reach_successor : ℕ → ℕ → Search → Option Search
reach_successor count next s =
    if next == no_node then some s else if leb count next then none else some (reach next s)

-- One round of the loop over the stack; `again` is the rest of the loop.
unfoldable pub reach_round : Cfg → (Search → Option Search) → Search → List ℕ → Option Search
reach_round cfg again s [] = some s
reach_round cfg again s (at ∷ stack) =
    reach_successor (block_count cfg) (block cfg at).true_successor (record s { stack = stack })
    >>= λ t. reach_successor (block_count cfg) (block cfg at).false_successor t >>= again

-- Each block is pushed once, so the block count and one are enough fuel.
unfoldable pub reach_all : Cfg → ℕ → Search → Option Search
reach_all cfg zero s = none
reach_all cfg (suc fuel) s = reach_round cfg (reach_all cfg fuel) s s.stack

-- The value of `kept` before block `n`.
abbrev pub kept_below : (ℕ → Bool) → ℕ → ℕ
kept_below reachable n = count_below reachable n

-- map[i]
unfoldable pub new_index : (ℕ → Bool) → ℕ → ℕ
new_index reachable i = if reachable i then kept_below reachable i else no_node

unfoldable pub rename_successor : (ℕ → Bool) → ℕ → ℕ
rename_successor reachable c = if c == no_node then c else new_index reachable c

unfoldable pub rename_block : (ℕ → Bool) → Block → Block
unfolding rename_successor
rename_block reachable b = record b {
  true_successor = rename_successor reachable b.true_successor;
  false_successor = rename_successor reachable b.false_successor;
}

-- The kept blocks of a list that begins at block `i`.
unfoldable pub keep_blocks : (ℕ → Bool) → ℕ → List Block → List Block
keep_blocks reachable i [] = []
keep_blocks reachable i (b ∷ bs) =
    let rest = keep_blocks reachable (i + 1) bs in
    if reachable i then rename_block reachable b ∷ rest else rest

unfoldable pub rename_cfg : (ℕ → Bool) → Cfg → Cfg
rename_cfg reachable cfg = record {
  blocks = keep_blocks reachable 0 cfg.blocks;
  entries = map (new_index reachable) cfg.entries;
  exit_block = new_index reachable cfg.exit_block;
}

unfoldable pub prune_unreachable_blocks : Cfg → Option Cfg
prune_unreachable_blocks cfg =
    let start : Search = record { reachable = λ i. false; stack = [] } in
    reach_entries (block_count cfg) cfg.entries start >>= λ s.
    reach_all cfg (suc (block_count cfg)) s >>= λ t.
    if kept_below t.reachable (block_count cfg) == 0
      || new_index t.reachable cfg.exit_block == no_node
    then none
    else some (rename_cfg t.reachable cfg)

-- `cut_short` is no outcome of the program: a loop of the model ran out of fuel.
pub data Build : Type 0 where
  built : Cfg → Build
  refused cut_short : Build

unfoldable pub checked : Option Cfg → Build
checked none = refused
checked (some cfg) = if vnt_cfg_validate cfg then built cfg else refused

unfoldable pub clean_up : Program → Cfg → Build
unfolding checked
clean_up ir graph = checked (prune_unreachable_blocks (simplify_constant_branches ir graph))

unfoldable pub vnt_cfg_build : Program → Build
vnt_cfg_build ir =
    let graph = build_graph ir in
    if vnt_ir_validate ir
    then elim graph [
      | none ↦ cut_short
      | some g ↦ elim g [ none ↦ refused | some cfg ↦ clean_up ir cfg ]
    ]
    else refused
