-- ===== src/Cfg/Sound.antt =====
-- What the data-flow functions of src/compiler/cfg.c promise their callers.
use vnt.Base.{
  ℕ, ◌≤◌, ◌<◌, ◌≡◌, ◌↔◌, true, false, ◌&&◌, Option, none, some, List, arith, ◌==◌, lt→ltb, length,
  get_elem?,
}
use vnt.Ir.Node.{Name, Program, no_node}
use vnt.Ir.Validate.{vnt_ir_validate}
use vnt.Cfg.Graph.{Cfg, block_count}
use vnt.Cfg.Bits.{Bits}
use vnt.Cfg.Variables.{collect_variables, variable_index, variable_index-hit, holds}
use vnt.Ir.Forest.{vnt_ir_validate-IsForest}
use vnt.Cfg.Validate.{vnt_cfg_validate, vnt_cfg_validate_iff, IsWellFormed-HasEdgesInside}
use vnt.Cfg.Collected.{Held, holds_iff, Mentioned, collect_variables-Distinct}
use vnt.Cfg.ByName.{LiveAt, LiveBehind, ReadsAt, MissingAt, Live-iff, LiveOut-iff}
use vnt.Cfg.Liveness.Exact.{solve_liveness-IsLiveness}
use vnt.Cfg.Analysis.{
  all_references_ok, too_many_cells, uses_of, defs_of, Liveness, vnt_cfg_compute_liveness,
  vnt_cfg_variable_live_in, vnt_cfg_variable_live_out, member_of, entry_seed, Verdict, accepted,
  may_be_uninitialized,
}
use vnt.Cfg.EffectsEnd.{all_effects-Ends}

-- The input that the two analyses take: a valid program and a valid graph
-- over it, within the bounds of the machine.
pub record IsInput (ir : Program) (cfg : Cfg) : Type 0 where
  pub ir_valid : vnt_ir_validate ir ≡ true
  pub cfg_valid : vnt_cfg_validate cfg ≡ true
  pub references : all_references_ok ir cfg.blocks ≡ true
  pub blocks_fit : block_count cfg ≤ no_node
  pub names_fit : length (collect_variables ir) ≤ no_node
  pub cells_fit : too_many_cells (block_count cfg) (length (collect_variables ir)) ≡ false

module _ (ir : Program) (cfg : Cfg) where
  -- The result answers the two queries by the paths of the graph and the statements of its blocks.
  pub record AnswersLiveness (l : Liveness) : Type 0 where
    pub live_in :
        (b : ℕ) (x : Name)
        → b < block_count cfg
        → Mentioned x ir.nodes
        → (vnt_cfg_variable_live_in l b x ≡ true) ↔ LiveAt ir cfg b x
    pub live_out :
        (b : ℕ) (x : Name)
        → b < block_count cfg
        → Mentioned x ir.nodes
        → (vnt_cfg_variable_live_out l b x ≡ true) ↔ LiveBehind ir cfg b x

iff_trans : {A B C : Type 0} → A ↔ B → B ↔ C → A ↔ C
iff_trans f g = (λ a. g.0 (f.0 a), λ c. f.1 (g.1 c))

module _ (ir : Program) (cfg : Cfg) (input : IsInput ir cfg) where
  valid_input : (vnt_ir_validate ir && vnt_cfg_validate cfg) ≡ true
  valid_input = rw (input.ir_valid, input.cfg_valid)

  index_known :
      (x : Name)
      → holds (collect_variables ir) x ≡ true
      → (variable_index (collect_variables ir) (some x) < length (collect_variables ir))
        × ((variable_index (collect_variables ir) (some x) == no_node) ≡ false)
  index_known x h =
      let hit = variable_index-hit (collect_variables ir) x input.names_fit h in
      let fits = input.names_fit in (hit.0, let lt = hit.0 in ground arith)

  held : (x : Name) → Mentioned x ir.nodes → Held x (collect_variables ir)
  held x m = ((collect_variables-Distinct ir).1 x).1 m

  -- On a valid program and a valid graph over it, both within the bounds of `size_t`, liveness is
  -- computed, and for every block and every variable that the program mentions its queries say exactly
  -- whether a path of the graph leads to a statement or condition that reads the variable, past no
  -- block whose statement writes it.
  pub vnt_cfg_compute_liveness-AnswersLiveness :
      (l : Liveness) × (vnt_cfg_compute_liveness ir cfg ≡ some l) × AnswersLiveness ir cfg l
  unfolding vnt_cfg_compute_liveness vnt_cfg_variable_live_in vnt_cfg_variable_live_out
  vnt_cfg_compute_liveness-AnswersLiveness =
      let names = collect_variables ir in
      let e = all_effects-Ends ir names (vnt_ir_validate-IsForest ir input.ir_valid) cfg.blocks in
      let inside =
        IsWellFormed-HasEdgesInside cfg input.blocks_fit
          ((vnt_cfg_validate_iff cfg).0 input.cfg_valid) in
      let s = solve_liveness-IsLiveness cfg (uses_of e.0) (defs_of e.0) (length names) inside in
      let exact = s.2 in
      let forest = vnt_ir_validate-IsForest ir input.ir_valid in
      (
        record {
          names = names;
          block_count = block_count cfg;
          live_in = s.0.ins;
          live_out = s.0.outs;
        },
        rw (valid_input, input.cells_fit, input.references, e.1) (rw s.1),
        record {
          live_in = λ b x lb m.
              let h = held x m in
              let k = index_known x ((holds_iff names x).1 h) in
              rw (lt→ltb b (block_count cfg) lb, k.1)
                (iff_trans (exact.ins b (variable_index names (some x)) lb k.0)
                  (Live-iff ir cfg forest input.names_fit e.0 e.1 inside b x lb h));
          live_out = λ b x lb m.
              let h = held x m in
              let k = index_known x ((holds_iff names x).1 h) in
              rw (lt→ltb b (block_count cfg) lb, k.1)
                (iff_trans (exact.outs b (variable_index names (some x)) lb k.0)
                  (LiveOut-iff ir cfg forest input.names_fit e.0 e.1 inside b x lb h));
        },
      )

abbrev verdict_of : List Name → Option ℕ → Verdict
verdict_of names none = accepted
verdict_of names (some v) = may_be_uninitialized (get_elem? names v)

module _ (ir : Program) (cfg : Cfg) where
  -- No block reads a variable that a path to it leaves unassigned.
  abbrev pub ReadsAssigned : Type 0
  ReadsAssigned =
      (b : ℕ) (x : Name)
      → b < block_count cfg
      → Mentioned x ir.nodes
      → ReadsAt ir cfg b x
      → ¬ MissingAt ir cfg (member_of cfg.entries)
          (entry_seed ir (collect_variables ir) cfg.entries) b x
