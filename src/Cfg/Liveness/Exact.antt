-- ===== src/Cfg/Liveness/Exact.antt =====
-- The result of the loop of `vnt_cfg_compute_liveness` in src/compiler/cfg.c is liveness.
use vnt.Base.{ℕ, suc, ◌*◌, ◌<◌, ◌≡◌, ap, ◌∙◌, ◌↔◌, true, false, some, arith}
use vnt.Cfg.Graph.{Cfg, Edge, true_edge, false_edge, HasEdgesInside, block_count}
use vnt.Cfg.Bits.{Bits}
use vnt.Cfg.Flow.{Sets, rounds_total, missing-bound}
use vnt.Cfg.Liveness.Loop.{next_out, next_in, relax_blocks, solve_liveness}
use vnt.Cfg.Cells.{same_view}
use vnt.Cfg.Liveness.Paths.{IsJustified, Solves, Live, read, onward, LiveOut}
use vnt.Cfg.Liveness.Rounds.{relax_blocks-Steps, relax_blocks-Solves}

module _ (cfg : Cfg) (uses defs : Bits) (vars : ℕ) where
  Edge-next_out :
      (ins : Bits) (b c v : ℕ) → Edge cfg b c → ins c v ≡ true → next_out cfg ins b v ≡ true
  unfolding next_out
  Edge-next_out ins b c v (true_edge e ne) h = ground arith
  Edge-next_out ins b c v (false_edge e ne) h = ground arith

  module _ (inside : HasEdgesInside cfg) (t : Sets)
      (solved : (b v : ℕ) → b < block_count cfg → v < vars → Solves cfg uses defs t b v) where
    Live-set :
        {b v : ℕ} → b < block_count cfg → v < vars → Live cfg uses defs b v → t.ins b v ≡ true
    unfolding next_in
    Live-set lb lv (read {b} {v} h) = let e = (solved b v lb lv).ins in ground arith
    Live-set lb lv (onward {b} {c} {v} kept edge live) =
        let s = solved b v lb lv in
        let eo = s.outs in
        let ei = s.ins in
        let there = Live-set (inside.inside b c lb edge) lv live in
        let out = Edge-next_out t.ins b c v edge there in ground arith

    LiveOut-set :
        (b v : ℕ) → b < block_count cfg → v < vars → LiveOut cfg uses defs b v → t.outs b v ≡ true
    LiveOut-set b v lb lv (c, edge, live) =
        (solved b v lb lv).outs
        ∙ Edge-next_out t.ins b c v edge (Live-set (inside.inside b c lb edge) lv live)

  -- The sets of the analysis say, for each block and variable, exactly whether a path leads to a read.
  pub record IsLiveness (t : Sets) : Type 0 where
    pub ins :
        (b v : ℕ) → b < block_count cfg → v < vars → (t.ins b v ≡ true) ↔ Live cfg uses defs b v
    pub outs :
        (b v : ℕ) → b < block_count cfg → v < vars → (t.outs b v ≡ true) ↔ LiveOut cfg uses defs b v

  -- On a graph whose edges stay inside it, the loop ends, and its bits are exactly the variables that
  -- are live into and out of each block.
  pub solve_liveness-IsLiveness :
      HasEdgesInside cfg → (t : Sets) × (solve_liveness cfg uses defs vars ≡ some t) × IsLiveness t
  unfolding solve_liveness
  solve_liveness-IsLiveness inside =
      let blocks = block_count cfg in
      let start : Sets = record { ins = λ b v. false; outs = λ b v. false; changed = false } in
      let empty : IsJustified cfg uses defs start = record {
        ins = λ b v h. cc;
        outs = λ b v h. cc;
        next_ins = λ b v h. cc;
        next_outs = λ b v h. cc;
      } in
      let run =
        rounds_total same_view blocks vars (relax_blocks cfg uses defs vars blocks)
          (IsJustified cfg uses defs)
          (λ s p. record {
            ins = p.ins;
            outs = p.outs;
            next_ins = p.next_ins;
            next_outs = p.next_outs;
          })
          (λ s p.
            let st = relax_blocks-Steps cfg uses defs vars blocks s (omega arith) p in
            (st.justified, st.grows))
          (suc (2 * (blocks * vars))) start empty
          (omega (arith, missing-bound same_view blocks vars start)) in
      let t = run.0 in
      let p = run.2 in
      let quiet : (relax_blocks cfg uses defs vars blocks t).changed ≡ false =
        ap (λ (x : Sets). x.changed) run.4 ∙ run.3 in
      let solved = relax_blocks-Solves cfg uses defs vars blocks t (omega arith) p quiet in
      (
        t,
        run.1,
        record {
          ins = λ b v lb lv. (p.ins b v, Live-set inside t solved lb lv);
          outs = λ b v lb lv. (p.outs b v, LiveOut-set inside t solved b v lb lv);
        },
      )
