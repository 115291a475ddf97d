-- ===== src/Cfg/Assigned/Paths.antt =====
-- What a missing assignment is: `Unassigned b v` says that a path of the graph leads from an entry
-- where `v` is not assigned to the start of `b`, and no block on it assigns `v`. The loop of
-- `vnt_cfg_check_definite_assignment` in src/compiler/cfg.c clears only bits that have such a path.
use vnt.Base.{
  ℕ, ◌≤◌, ◌<◌, ◌≡◌, sym, subst, ◌≢◌, inl, inr, Bool, true, false, ◌||◌, arith, ◌==◌, if◌then◌else◌,
  ==_iff, Bool-cases,
}
use vnt.Ir.Node.{no_node}
use vnt.Cfg.Graph.{Cfg, block, block_count, Edge, true_edge, false_edge}
use vnt.Cfg.Bits.{Bits}
use vnt.Cfg.Flow.{Sets}
use vnt.Cfg.Assigned.Loop.{block_has_predecessor, meet}
use vnt.Cfg.Assigned.Meet.{Fails, from_predecessor, no_predecessor, meet-Fails, meet_mono}

module _ (cfg : Cfg) where
  -- A block that is no missing successor has the predecessors that the edges say.
  pub block_has_predecessor-Edge :
      (p b : ℕ) → b ≢ no_node → block_has_predecessor cfg p b ≡ true → Edge cfg p b
  unfolding block_has_predecessor
  block_has_predecessor-Edge p b ne h = elim (Bool-cases ((block cfg p).true_successor == b)) [
    | inl e ↦ true_edge ((==_iff _ b).0 e) ne
    | inr n ↦ false_edge ((==_iff _ b).0 (ground arith)) ne
  ]

  pub Edge-block_has_predecessor : (p b : ℕ) → Edge cfg p b → block_has_predecessor cfg p b ≡ true
  unfolding block_has_predecessor
  Edge-block_has_predecessor p b (true_edge e ne) = ground arith
  Edge-block_has_predecessor p b (false_edge e ne) = ground arith

module _ (cfg : Cfg) (is_entry : ℕ → Bool) (seed defs : Bits) where
  pub data Unassigned : ℕ → ℕ → Type 0 where
    at_entry : {b v : ℕ} → is_entry b ≡ true → seed b v ≡ false → Unassigned b v
    unreached :
        {b v : ℕ}
        → is_entry b ≡ false
        → ((p : ℕ) → p < block_count cfg → ¬ Edge cfg p b)
        → Unassigned b v
    along :
        {p b v : ℕ}
        → is_entry b ≡ false
        → p < block_count cfg
        → Edge cfg p b
        → defs p v ≡ false
        → Unassigned p v
        → Unassigned b v

  -- The value that the start of a block takes from the sets behind the blocks.
  abbrev pub wanted : Bits → ℕ → ℕ → Bool
  wanted outs b v = if is_entry b then seed b v else meet cfg outs b v

  -- Each cleared bit has a path, and follows from the bits that it is computed from.
  pub record IsJustified (s : Sets) : Type 0 where
    pub ins : (b v : ℕ) → b < block_count cfg → s.ins b v ≡ false → Unassigned b v
    pub outs :
        (b v : ℕ) → b < block_count cfg → s.outs b v ≡ false → (defs b v ≡ false) × Unassigned b v
    pub next_ins : (b v : ℕ) → s.ins b v ≡ false → wanted s.outs b v ≡ false
    pub next_outs : (b v : ℕ) → s.outs b v ≡ false → (s.ins b v || defs b v) ≡ false

  module _ (fits : block_count cfg ≤ no_node) (s : Sets) (p : IsJustified s) where
    meet-Unassigned :
        (b v : ℕ)
        → b < block_count cfg
        → is_entry b ≡ false
        → Fails cfg b v s.outs (block_count cfg) 0
        → Unassigned b v
    meet-Unassigned b v lb e (from_predecessor q lo hi pred off) =
        let ne : b ≢ no_node = λ same. absurd (omega arith) in
        let behind = p.outs q v (omega arith) off in
        along e (omega arith) (block_has_predecessor-Edge cfg q b ne pred) behind.0 behind.1
    meet-Unassigned b v lb e (no_predecessor k) = unreached e λ q lq edge.
        let h = k q (omega arith) (omega arith) in
        let h' = Edge-block_has_predecessor cfg q b edge in cc

    pub wanted-Unassigned :
        (b v : ℕ) → b < block_count cfg → wanted s.outs b v ≡ false → Unassigned b v
    wanted-Unassigned b v lb h = elim (Bool-cases (is_entry b)) [
      | inl e ↦ at_entry e (rw e at h)
      | inr e ↦ meet-Unassigned b v lb e (meet-Fails cfg b v s.outs (rw e at h))
    ]

    -- A step that clears bits at the start of blocks, each as the sets ask.
    pub clear_ins :
        (t : Sets)
        → t.outs ≡ s.outs
        → ((i j : ℕ) → s.ins i j ≡ false → t.ins i j ≡ false)
        → ((i j : ℕ) → t.ins i j ≡ false → wanted s.outs i j ≡ false)
        → IsJustified t
    clear_ins t same down next = record {
      ins = λ i j li h. wanted-Unassigned i j li (next i j h);
      outs = λ i j li h. p.outs i j li (subst (λ m. m i j ≡ false) same h);
      next_ins = λ i j h. subst (λ m. wanted m i j ≡ false) (sym same) (next i j h);
      next_outs = λ i j h.
          let before = p.next_outs i j (subst (λ m. m i j ≡ false) same h) in
          ground (arith, down i j);
    }

    -- A step that clears bits behind blocks, each as the start of its block asks.
    pub clear_outs :
        (t : Sets)
        → t.ins ≡ s.ins
        → ((i j : ℕ) → s.outs i j ≡ false → t.outs i j ≡ false)
        → ((i j : ℕ) → t.outs i j ≡ false → (s.ins i j || defs i j) ≡ false)
        → IsJustified t
    clear_outs t same down next = record {
      ins = λ i j li h. p.ins i j li (subst (λ m. m i j ≡ false) same h);
      outs = λ i j li h. let k = next i j h in (ground arith, p.ins i j li (ground arith));
      next_ins = λ i j h.
          let before = p.next_ins i j (subst (λ m. m i j ≡ false) same h) in
          ground (arith, meet_mono cfg i j s.outs t.outs down);
      next_outs = λ i j h. subst (λ m. (m i j || defs i j) ≡ false) (sym same) (next i j h);
    }
