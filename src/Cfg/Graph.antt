-- ===== src/Cfg/Graph.antt =====
-- The blocks of a control-flow graph and its edges: include/vnt/cfg.h.
use vnt.Base.{ℕ, ◌≤◌, ◌<◌, ◌≡◌, ◌≢◌, List, length, get_or}
use vnt.Ir.Node.{no_node}

pub data Terminator : Type 0 where
  fallthrough branch jump return exit : Terminator

pub record Block : Type 0 where
  pub instruction : ℕ
  pub condition : ℕ
  pub true_successor : ℕ
  pub false_successor : ℕ
  pub terminator : Terminator

-- The entries are that of the main program and those of the function bodies.
pub record Cfg : Type 0 where
  pub blocks : List Block
  pub entries : List ℕ
  pub exit_block : ℕ

abbrev pub block_count : Cfg → ℕ
block_count cfg = length cfg.blocks

abbrev pub blank_block : Block
blank_block = record {
  instruction = no_node;
  condition = no_node;
  true_successor = no_node;
  false_successor = no_node;
  terminator = exit;
}

-- cfg->blocks[i]
unfoldable pub block : Cfg → ℕ → Block
block cfg i = get_or cfg.blocks i blank_block

-- `b` has an edge to `c`, which is no missing successor.
pub data Edge (cfg : Cfg) (b c : ℕ) : Type 0 where
  true_edge : (block cfg b).true_successor ≡ c → c ≢ no_node → Edge cfg b c
  false_edge : (block cfg b).false_successor ≡ c → c ≢ no_node → Edge cfg b c

-- The block numbers of a graph fit below `no_node`, and every edge leads to a block.
pub record HasEdgesInside (cfg : Cfg) : Type 0 where
  pub fits : block_count cfg ≤ no_node
  pub inside : (b c : ℕ) → b < block_count cfg → Edge cfg b c → c < block_count cfg
