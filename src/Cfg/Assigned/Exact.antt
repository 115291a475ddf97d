-- ===== src/Cfg/Assigned/Exact.antt =====
-- The result of the loop of `vnt_cfg_check_definite_assignment` in src/compiler/cfg.c is definite
-- assignment along the paths of the graph.
use vnt.Base.{
  ℕ, suc, ◌*◌, ◌≤◌, ◌<◌, ◌≡◌, ap, ◌∙◌, subst, ◌≢◌, ◌↔◌, inl, inr, Bool, true, false, ◌||◌, some,
  arith, if◌then◌else◌, Bool-cases,
}
use vnt.Ir.Node.{no_node}
use vnt.Cfg.Graph.{Cfg, block_count}
use vnt.Cfg.Bits.{Bits}
use vnt.Cfg.Flow.{Sets, rounds_total, missing-bound, complement}
use vnt.Cfg.Cells.{write_out, write_in, write_in-quiet, write_out-quiet}
use vnt.Cfg.Assigned.Loop.{
  block_has_predecessor, meet, row_differs, take_seed, meet_row, transfer_row, assign_block,
  assign_blocks, solve_assigned,
}
use vnt.Cfg.Assigned.Meet.{from_predecessor, no_predecessor, Fails-meet}
use vnt.Cfg.Assigned.Paths.{
  wanted, IsJustified, Unassigned, at_entry, unreached, along, Edge-block_has_predecessor,
  block_has_predecessor-Edge,
}
use vnt.Cfg.Assigned.Rows.{Steps, Steps-trans, quiet_start, for_from-Steps, for_from-finds}
use vnt.Cfg.Assigned.Cells.{meet_cell-Steps, transfer_cell-Steps, take_seed-Steps, row_agrees_at}

module _ (cfg : Cfg) (is_entry : ℕ → Bool) (seed defs : Bits) (vars : ℕ)
    (fits : block_count cfg ≤ no_node) where
  -- The cell of a block and a variable satisfies the equations of the analysis.
  abbrev SolvesIn : Sets → ℕ → ℕ → Type 0
  SolvesIn s b v = s.ins b v ≡ wanted cfg is_entry seed defs s.outs b v

  abbrev SolvesOut : Sets → ℕ → ℕ → Type 0
  SolvesOut s b v = s.outs b v ≡ (s.ins b v || defs b v)

  module _ (b : ℕ) (lb : b < block_count cfg) where
    take-Steps :
        (s : Sets)
        → IsJustified cfg is_entry seed defs s
        → Steps cfg is_entry seed defs vars fits s (
            if is_entry b
            then take_seed cfg is_entry seed defs vars b s
            else meet_row cfg is_entry seed defs vars b s)
    unfolding meet_row
    take-Steps s p = elim (Bool-cases (is_entry b)) [
      | inl e ↦ rw e (take_seed-Steps cfg is_entry seed defs vars fits b lb e s p)
      | inr e ↦ rw e (
          for_from-Steps cfg is_entry seed defs vars fits vars _ (λ t v. Unit {0})
            (λ v t lv q. meet_cell-Steps cfg is_entry seed defs vars fits b lb e v t lv q)
            (λ v t lv q c. tt) vars 0 s (omega arith) p)
    ]

    take-finds :
        (s : Sets)
        → IsJustified cfg is_entry seed defs s
        → (if is_entry b
            then take_seed cfg is_entry seed defs vars b s
            else meet_row cfg is_entry seed defs vars b s).changed
          ≡ false
        → (v : ℕ) → v < vars
        → SolvesIn s b v
    unfolding meet_row take_seed
    take-finds s p c v lv = elim (Bool-cases (is_entry b)) [
      | inl e ↦
          let same : row_differs s.ins seed b vars ≡ false = ground arith in
          rw e (row_agrees_at s.ins seed b vars same v lv)
      | inr e ↦ rw e (
          for_from-finds cfg is_entry seed defs vars fits vars
            (λ v s. write_in b v (meet cfg s.outs b v) s) (λ t w. t.ins b w ≡ meet cfg t.outs b w)
            (λ w t lw q. meet_cell-Steps cfg is_entry seed defs vars fits b lb e w t lw q)
            (λ w t lw q quiet. write_in-quiet b w (meet cfg t.outs b w) t quiet) vars 0 s
            (omega arith) p (rw e at c) v (omega arith) (omega arith))
    ]

    transfer-Steps :
        (s : Sets)
        → IsJustified cfg is_entry seed defs s
        → Steps cfg is_entry seed defs vars fits s (transfer_row cfg is_entry seed defs vars b s)
    unfolding transfer_row
    transfer-Steps s p =
        for_from-Steps cfg is_entry seed defs vars fits vars _ (λ t v. Unit {0})
          (λ v t lv q. transfer_cell-Steps cfg is_entry seed defs vars fits b lb v t lv q)
          (λ v t lv q c. tt) vars 0 s (omega arith) p

    transfer-finds :
        (s : Sets)
        → IsJustified cfg is_entry seed defs s
        → (transfer_row cfg is_entry seed defs vars b s).changed ≡ false
        → (v : ℕ) → v < vars
        → SolvesOut s b v
    unfolding transfer_row
    transfer-finds s p c v lv =
        for_from-finds cfg is_entry seed defs vars fits vars
          (λ v s. write_out b v (s.ins b v || defs b v) s) (λ t w. SolvesOut t b w)
          (λ w t lw q. transfer_cell-Steps cfg is_entry seed defs vars fits b lb w t lw q)
          (λ w t lw q quiet. write_out-quiet b w (t.ins b w || defs b w) t quiet) vars 0 s
          (omega arith) p c v (omega arith) (omega arith)

    assign_block-Steps :
        (s : Sets)
        → IsJustified cfg is_entry seed defs s
        → Steps cfg is_entry seed defs vars fits s (assign_block cfg is_entry seed defs vars b s)
    unfolding assign_block
    assign_block-Steps s p =
        let first = take-Steps s p in
        Steps-trans cfg is_entry seed defs vars fits first (transfer-Steps _ first.justified)

    assign_block-finds :
        (s : Sets)
        → IsJustified cfg is_entry seed defs s
        → (assign_block cfg is_entry seed defs vars b s).changed ≡ false
        → (v : ℕ) → v < vars
        → SolvesIn s b v × SolvesOut s b v
    unfolding assign_block
    assign_block-finds s p c v lv =
        let first = take-Steps s p in
        let second = transfer-Steps _ first.justified in
        let quiet = quiet_start cfg is_entry seed defs vars fits second c in
        (
          take-finds s p quiet v lv,
          subst (λ t. SolvesOut t b v) (first.grows.same quiet)
              (transfer-finds _ first.justified c v lv),
        )

  round-Steps :
      (s : Sets)
      → IsJustified cfg is_entry seed defs s
      → Steps cfg is_entry seed defs vars fits s (assign_blocks cfg is_entry seed defs vars s)
  unfolding assign_blocks
  round-Steps s p =
      for_from-Steps cfg is_entry seed defs vars fits (block_count cfg) _ (λ t b. Unit {0})
        (λ b t lb q. assign_block-Steps b lb t q) (λ b t lb q c. tt) (block_count cfg) 0 s
        (omega arith) p

  round-finds :
      (s : Sets)
      → IsJustified cfg is_entry seed defs s
      → (assign_blocks cfg is_entry seed defs vars s).changed ≡ false
      → (b : ℕ) → b < block_count cfg
      → (v : ℕ) → v < vars
      → SolvesIn s b v × SolvesOut s b v
  unfolding assign_blocks
  round-finds s p c b lb v lv =
      for_from-finds cfg is_entry seed defs vars fits (block_count cfg) _
        (λ t b. (v : ℕ) → v < vars → SolvesIn t b v × SolvesOut t b v)
        (λ b t lb q. assign_block-Steps b lb t q) (λ b t lb q c. assign_block-finds b lb t q c)
        (block_count cfg) 0 s (omega arith) p c b (omega arith) (omega arith) v lv

  module _ (t : Sets)
      (solved : (b : ℕ)
        → b < block_count cfg
        → (v : ℕ) → v < vars
        → SolvesIn t b v × SolvesOut t b v) where
    Unassigned-cleared :
        {b v : ℕ}
        → b < block_count cfg
        → v < vars
        → Unassigned cfg is_entry seed defs b v
        → t.ins b v ≡ false
    Unassigned-cleared lb lv (at_entry {b} {v} e low) = (solved b lb v lv).0 ∙ rw e low
    Unassigned-cleared lb lv (unreached {b} {v} e alone) =
        let ne : b ≢ no_node = λ same. absurd (omega arith) in
        let none_at : (q : ℕ)
            → 0 ≤ q
            → q < block_count cfg
            → block_has_predecessor cfg q b ≡ false =
          λ q lo hi. elim (Bool-cases (block_has_predecessor cfg q b)) [
            | inl h ↦ absurd (alone q hi (block_has_predecessor-Edge cfg q b ne h))
            | inr h ↦ h
          ] in
        (solved b lb v lv).0
        ∙ rw e (Fails-meet cfg b v t.outs (no_predecessor λ q lo hi. none_at q lo (omega arith)))
    Unassigned-cleared lb lv (along {p} {b} {v} e lp edge kept missing) =
        let off = Unassigned-cleared lp lv missing in
        let behind : t.outs p v ≡ false = (solved p lp v lv).1 ∙ rw (off, kept) in
        (solved b lb v lv).0
        ∙ rw e (
            Fails-meet cfg b v t.outs (
              from_predecessor p (omega arith) (omega arith)
                (Edge-block_has_predecessor cfg p b edge) behind))

  -- A bit of the analysis is 0 exactly where a path reaches the block with the variable unassigned.
  pub record IsAssigned (t : Sets) : Type 0 where
    pub ins :
        (b v : ℕ)
        → b < block_count cfg
        → v < vars
        → (t.ins b v ≡ false) ↔ Unassigned cfg is_entry seed defs b v

  -- On a graph of at most as many blocks as there are indices, the loop ends, and a bit of a block is 0
  -- exactly where a path reaches the block with the variable unassigned.
  pub solve_assigned-IsAssigned :
      (t : Sets) × (solve_assigned cfg is_entry seed defs vars ≡ some t) × IsAssigned t
  unfolding solve_assigned
  solve_assigned-IsAssigned =
      let blocks = block_count cfg in
      let start : Sets = record { ins = λ b v. true; outs = λ b v. true; changed = false } in
      let full : IsJustified cfg is_entry seed defs start = record {
        ins = λ b v lb h. cc;
        outs = λ b v lb h. cc;
        next_ins = λ b v h. cc;
        next_outs = λ b v h. cc;
      } in
      let run =
        rounds_total complement blocks vars (assign_blocks cfg is_entry seed defs vars)
          (IsJustified cfg is_entry seed defs)
          (λ s p. record {
            ins = p.ins;
            outs = p.outs;
            next_ins = p.next_ins;
            next_outs = p.next_outs;
          })
          (λ s p. let st = round-Steps s p in (st.justified, st.grows)) (suc (2 * (blocks * vars)))
          start full (omega (arith, missing-bound complement blocks vars start)) in
      let t = run.0 in
      let p = run.2 in
      let quiet : (assign_blocks cfg is_entry seed defs vars t).changed ≡ false =
        ap (λ (x : Sets). x.changed) run.4 ∙ run.3 in
      let solved = round-finds t p quiet in
      (t, run.1, record { ins = λ b v lb lv. (p.ins b v lb, Unassigned-cleared t solved lb lv) })
