-- ===== src/Cfg/CleanUp.antt =====
-- `prune_unreachable_blocks` and the clean-up of `vnt_cfg_build` in src/compiler/cfg.c keep a graph well
-- formed, so that the check at the end of the build never refuses it.
use vnt.Base.{
  ℕ, ◌≤◌, ◌<◌, ◌≡◌, refl, sym, ap, ◌∙◌, ◌≢◌, ◌⊎◌, inl, inr, Bool, true, false, ◌||◌, Option, none,
  some, List, [], ◌∷◌, map, arith, ◌==◌, Bool-cases, length, All, count_below, count_below-le,
  count_below_strict,
}
use vnt.Ir.Node.{no_node}
use vnt.Ir.Walk.{In}
use vnt.Cfg.Graph.{Block, Cfg, block, block_count, Edge, true_edge, false_edge}
use vnt.Cfg.Validate.{
  IsWellFormed, IsTerminated, as_branch, as_exit, as_return, as_jump, as_fallthrough,
  IsWellFormed-HasEdgesInside,
}
use vnt.Cfg.Prune.{
  kept_below, new_index, rename_successor, rename_block, rename_cfg, prune_unreachable_blocks,
}
use vnt.Cfg.Reach.{Reached, at_entry, reach_all-Reached}
use vnt.Cfg.Pruned.{
  IsPruned, IsReach, rename_cfg-IsPruned, new_index-lt, rename_successor-there,
  rename_successor-missing,
}

module _ (cfg : Cfg) (fits : block_count cfg ≤ no_node) (well : IsWellFormed cfg) (r : ℕ → Bool)
    (search : IsReach cfg r) (exit_reached : Reached cfg cfg.exit_block) where
  abbrev left : Cfg
  left = rename_cfg r cfg

  there :
      (b c : ℕ)
      → Reached cfg b
      → (c ≢ no_node → Edge cfg b c)
      → c ≢ no_node
      → (rename_successor r c ≢ no_node) × (rename_successor r c < block_count left)
  there = rename_successor-there cfg fits well r search exit_reached

  missing : (c : ℕ) → c ≡ no_node → rename_successor r c ≡ no_node
  missing = rename_successor-missing cfg fits well r search exit_reached

  to_exit : (c : ℕ) → c ≡ cfg.exit_block → rename_successor r c ≡ left.exit_block
  unfolding rename_successor rename_cfg
  to_exit c e =
      let lt = well.exit_inside in
      let off : (c == no_node) ≡ false = ground arith in rw off (ap (new_index r) e)

  rename_block-IsTerminated :
      (i : ℕ)
      → Reached cfg i
      → IsTerminated cfg i (block cfg i)
      → IsTerminated left (kept_below r i) (rename_block r (block cfg i))
  unfolding rename_block
  rename_block-IsTerminated i p (as_branch e n c t f) =
      as_branch e n c (there i _ p (λ ne. true_edge refl ne) t).0
        (there i _ p (λ ne. false_edge refl ne) f).0
  rename_block-IsTerminated i p (as_exit e at n c t f) =
      as_exit e
        (let k = (new_index-lt cfg fits well r search exit_reached i p).0 in
          sym k ∙ ap (new_index r) at ∙ unfold rename_cfg in refl)
        n c (missing _ t) (missing _ f)
  rename_block-IsTerminated i p (as_return e n c t f) = as_return e n c (to_exit _ t) (missing _ f)
  rename_block-IsTerminated i p (as_jump e c t f) =
      as_jump e c (there i _ p (λ ne. true_edge refl ne) t).0 (missing _ f)
  rename_block-IsTerminated i p (as_fallthrough e n c t f) =
      as_fallthrough e n c (there i _ p (λ ne. true_edge refl ne) t).0 (missing _ f)

  renamed_edge :
      (i c : ℕ) (b : Block)
      → Reached cfg i
      → b ≡ rename_block r (block cfg i)
      → (b.true_successor ≡ c) ⊎ (b.false_successor ≡ c)
      → c ≢ no_node
      → c < block_count left
  unfolding rename_block
  renamed_edge i c b p e (inl on_true) ne =
      let s = (block cfg i).true_successor in
      let k : rename_successor r s ≡ c = sym (ap (λ (x : Block). x.true_successor) e) ∙ on_true in
      let t = there i s p (λ n. true_edge refl n) (λ z. ne (sym k ∙ missing s z)) in rw k at t.1
  renamed_edge i c b p e (inr on_false) ne =
      let s = (block cfg i).false_successor in
      let k : rename_successor r s ≡ c = sym (ap (λ (x : Block). x.false_successor) e) ∙ on_false in
      let t = there i s p (λ n. false_edge refl n) (λ z. ne (sym k ∙ missing s z)) in rw k at t.1

  renamed_entries :
      (es : List ℕ)
      → ((e : ℕ) → In e es → Reached cfg e)
      → All (λ e. e < block_count left) (map (new_index r) es)
  renamed_entries [] h = tt
  renamed_entries (e ∷ es) h = (
    (new_index-lt cfg fits well r search exit_reached e (h e (inl refl))).1,
    renamed_entries es (λ x m. h x (inr m)),
  )

  pub rename_cfg-IsWellFormed : IsWellFormed left
  rename_cfg-IsWellFormed =
      let kept = rename_cfg-IsPruned cfg r in
      record {
        exit_inside =
            unfold rename_cfg in
            (new_index-lt cfg fits well r search exit_reached cfg.exit_block exit_reached).1;
        has_entry = unfold rename_cfg in entry_left cfg.entries well.has_entry;
        entries_inside = unfold rename_cfg in renamed_entries cfg.entries (λ e m. at_entry m);
        edges_inside = λ j c lj edge.
            let (i, li, on, at) = kept.only j lj in
            let same = (kept.kept i li on).1 in
            let p = (search.exact i).0 on in edge_inside i c p (rw at at same) edge;
        terminated = λ j lj.
            let (i, li, on, at) = kept.only j lj in
            let same = (kept.kept i li on).1 in
            let p = (search.exact i).0 on in
            rw (← at) (rw same (rename_block-IsTerminated i p (well.terminated i li)));
      }
    where
      entry_left : (es : List ℕ) → 0 < length es → 0 < length (map (new_index r) es)
      entry_left [] h = absurd (omega arith)
      entry_left (e ∷ es) h = omega arith

      edge_inside :
          {j : ℕ} (i c : ℕ)
          → Reached cfg i
          → block left j ≡ rename_block r (block cfg i)
          → Edge left j c
          → c < block_count left
      edge_inside {j} i c p same (true_edge e ne) =
          renamed_edge i c (block left j) p same (inl e) ne
      edge_inside {j} i c p same (false_edge e ne) =
          renamed_edge i c (block left j) p same (inr e) ne

-- What pruning makes of a graph, by the blocks that are reached.
pub data Pruning (cfg : Cfg) (r : ℕ → Bool) : Option Cfg → Type 0 where
  left_over :
      Reached cfg cfg.exit_block
      → IsPruned cfg r (rename_cfg r cfg)
      → IsWellFormed (rename_cfg r cfg)
      → Pruning cfg r (some (rename_cfg r cfg))
  endless : ¬ Reached cfg cfg.exit_block → Pruning cfg r none

-- On a well-formed graph of no more blocks than there are indices, pruning keeps exactly the blocks that
-- are reached from an entry, in order, and the graph well formed; where the exit is not reached, it fails.
pub prune_unreachable_blocks-Pruning :
    (cfg : Cfg)
    → block_count cfg ≤ no_node
    → IsWellFormed cfg
    → (r : ℕ → Bool) × IsReach cfg r × Pruning cfg r (prune_unreachable_blocks cfg)
unfolding prune_unreachable_blocks new_index
prune_unreachable_blocks-Pruning cfg fits well =
    let (s, t, e1, e2, exact, inside) =
      reach_all-Reached cfg (IsWellFormed-HasEdgesInside cfg fits well) well.entries_inside in
    let r = t.reachable in
    let search : IsReach cfg r = record { exact = exact; inside = inside } in
    let lt = well.exit_inside in
    (
      r,
      search,
      rw (e1, e2)
          (elim (Bool-cases (r cfg.exit_block)) [
            | inl on ↦
                let p = (exact cfg.exit_block).0 on in
                let below = count_below_strict r cfg.exit_block (block_count cfg) lt on in
                let bound = count_below-le r (block_count cfg) in
                let some_kept : (count_below r (block_count cfg) == 0) ≡ false = ground arith in
                let is_index : (count_below r cfg.exit_block == no_node) ≡ false = ground arith in
                rw (on, some_kept, is_index)
                  (left_over p (rename_cfg-IsPruned cfg r)
                    (rename_cfg-IsWellFormed cfg fits well r search p))
            | inr off ↦
                let refused : (count_below r (block_count cfg) == 0 || no_node == no_node) ≡ true =
                  ground arith in
                rw (off, refused) (endless (λ p. let on = (exact cfg.exit_block).1 p in cc))
          ]),
    )
