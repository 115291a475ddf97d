-- ===== src/Cfg/Returned.antt =====
-- What a caller of `vnt_cfg_build` of src/compiler/cfg.c may rely on.
use vnt.Base.{ℕ, ◌<◌, ◌≡◌, ◌≢◌, Bool, true, false, none, some}
use vnt.Ir.Node.{Program, no_node, node, node_count, boolean_of, boolean}
use vnt.Ir.Walk.{In}
use vnt.Cfg.Graph.{Cfg, block, block_count, branch}
use vnt.Cfg.Validate.{IsWellFormed}
use vnt.Cfg.Build.{build_graph}
use vnt.Cfg.Prune.{simplify_constant_branches, Build, built, refused}
use vnt.Cfg.Reach.{Reached}

-- Block `b` branches on the literal `value`.
pub record BranchesOn (ir : Program) (cfg : Cfg) (b : ℕ) (value : Bool) : Type 0 where
  pub branches : (block cfg b).terminator ≡ branch
  pub inside : (block cfg b).condition < node_count ir
  pub literal : (node ir (block cfg b).condition).opcode ≡ boolean
  pub worth : boolean_of (node ir (block cfg b).condition) ≡ value

-- An edge that a run may take: no literal condition excludes it.
pub data Allowed (ir : Program) (cfg : Cfg) (b c : ℕ) : Type 0 where
  if_true_edge :
      (block cfg b).true_successor ≡ c
      → c ≢ no_node
      → ¬ BranchesOn ir cfg b false
      → Allowed ir cfg b c
  if_false_edge :
      (block cfg b).false_successor ≡ c
      → c ≢ no_node
      → ¬ BranchesOn ir cfg b true
      → Allowed ir cfg b c

-- A path of edges that a run may take leads from an entry to a block.
pub data CanRun (ir : Program) (cfg : Cfg) : ℕ → Type 0 where
  run_entry : {e : ℕ} → In e cfg.entries → CanRun ir cfg e
  run_on : {b c : ℕ} → CanRun ir cfg b → Allowed ir cfg b c → CanRun ir cfg c

-- A graph that is well formed and has no block that is not reached.
pub record IsUsable (cfg : Cfg) : Type 0 where
  pub well_formed : IsWellFormed cfg
  pub all_reached : (b : ℕ) → b < block_count cfg → Reached cfg b
  pub ends : Reached cfg cfg.exit_block

-- What the build of a program answers.
pub data Answer (ir : Program) : Build → Type 0 where
  usable : {cfg : Cfg} → IsUsable cfg → Answer ir (built cfg)
  no_statements : build_graph ir ≡ some none → Answer ir refused
  never_ends :
      {g : Cfg} → build_graph ir ≡ some (some g) → ¬ CanRun ir g g.exit_block → Answer ir refused

module _ (ir : Program) (cfg : Cfg) (well : IsWellFormed cfg) where
  abbrev simple : Cfg
  simple = simplify_constant_branches ir cfg
