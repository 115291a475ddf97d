-- ===== src/Cfg/EffectsEnd.antt =====
-- The collection of the blocks' effects in src/compiler/cfg.c ends on a program whose links lead
-- downwards.
use vnt.Base.{ℕ, refl, List, [], ◌∷◌, ◌==◌}
use vnt.Ir.Node.{
  Name, Opcode, Program, no_node, node, variable_decl, reassign, print, return, assign,
}
use vnt.Cfg.Graph.{Block}
use vnt.Cfg.Effects.{Effects, reads, effects_by, collect_block_effects}
use vnt.Ir.Forest.{IsForest}
use vnt.Cfg.Reads.{collect_expression_reads-Reads}
use vnt.Cfg.Analysis.{no_effects, no_effects, all_effects}
use vnt.Cfg.Ends.{Ends, Ends-bind, Ends-if}

module _ (ir : Program) (names : List Name) (t : IsForest ir) where
  reads-Ends : (n : ℕ) (e : Effects) → Ends (reads ir names n e)
  reads-Ends n e =
      let r = collect_expression_reads-Reads ir names t n e.uses in
      Ends-bind _ _ (r.0, r.1) (λ u. (record e { uses = u }, refl))

  effects_by-Ends : (op : Opcode) (i : ℕ) (e : Effects) → Ends (effects_by ir names op i e)
  unfolding effects_by
  effects_by-Ends variable_decl i e =
      Ends-if _ _ _ (e, refl) (Ends-bind _ _ (reads-Ends _ e) (λ a. (_, refl)))
  effects_by-Ends reassign i e = Ends-bind _ _ (reads-Ends _ e) (λ a. (_, refl))
  effects_by-Ends print i e = reads-Ends _ e
  effects_by-Ends return i e = reads-Ends _ e
  effects_by-Ends assign i e =
      Ends-if _ _ _ (reads-Ends _ _) (Ends-bind _ _ (reads-Ends _ e) (λ a. reads-Ends _ a))
  effects_by-Ends _ i e = reads-Ends i e

  collect_block_effects-Ends : (b : Block) → Ends (collect_block_effects ir names b)
  unfolding collect_block_effects
  collect_block_effects-Ends b =
      Ends-bind _ _
        (Ends-if (b.condition == no_node) _ _ (no_effects, refl)
          (reads-Ends b.condition no_effects))
        (λ e.
          Ends-if (b.instruction == no_node) _ _ (e, refl)
            (effects_by-Ends (node ir b.instruction).opcode b.instruction e))

  pub all_effects-Ends : (bs : List Block) → Ends (all_effects ir names bs)
  unfolding all_effects
  all_effects-Ends [] = ([], refl)
  all_effects-Ends (b ∷ bs) =
      let e = collect_block_effects-Ends b in
      let es = all_effects-Ends bs in (e.0 ∷ es.0, rw (e.1, all_effects) (rw es.1))
