-- ===== src/Cfg/Assigned/Loop.antt =====
-- The loop of `vnt_cfg_check_definite_assignment` in src/compiler/cfg.c, over the blocks that are
-- entries, what is assigned at an entry (`seed`) and what a block assigns (`defs`).
use vnt.Base.{
  ℕ, zero, suc, ◌+◌, ◌*◌, Bool, true, false, ◌&&◌, ◌||◌, Option, ltb, ◌==◌, if◌then◌else◌, differ,
}
use vnt.Cfg.Graph.{Cfg, block, block_count}
use vnt.Cfg.Bits.{Bits}
use vnt.Cfg.Flow.{Sets, rounds, for_from}
use vnt.Cfg.Cells.{write_out, write_in}

unfoldable pub block_has_predecessor : Cfg → ℕ → ℕ → Bool
block_has_predecessor cfg predecessor target =
    (block cfg predecessor).true_successor == target
    || (block cfg predecessor).false_successor == target

-- The loop over the predecessors `p`, `n` of them left; without any the value is 0.
unfoldable pub meet_loop : Cfg → Bits → ℕ → ℕ → ℕ → ℕ → Bool → Bool → Bool
meet_loop cfg outs b v zero p value has = value && has
meet_loop cfg outs b v (suc n) p value has =
    meet_loop cfg outs b v n (p + 1)
      (if block_has_predecessor cfg p b then value && outs p v else value)
      (block_has_predecessor cfg p b || has)

unfoldable pub meet : Cfg → Bits → ℕ → ℕ → Bool
meet cfg outs b v = meet_loop cfg outs b v (block_count cfg) 0 true false

-- memcmp over the first n variables
unfoldable pub row_differs : Bits → Bits → ℕ → ℕ → Bool
row_differs m n b zero = false
row_differs m n b (suc k) = row_differs m n b k || differ (m b k) (n b k)

-- memcpy of one row
unfoldable pub copy_row : ℕ → Bits → Bits → ℕ → Bits
copy_row vars from to b i j = if i == b && ltb j vars then from i j else to i j

module _ (cfg : Cfg) (is_entry : ℕ → Bool) (seed defs : Bits) (vars : ℕ) where
  unfoldable pub take_seed : ℕ → Sets → Sets
  take_seed b s =
      if row_differs s.ins seed b vars
      then record s { ins = copy_row vars seed s.ins b; changed = true }
      else s

  unfoldable pub meet_row : ℕ → Sets → Sets
  meet_row b = for_from vars 0 (λ v s. write_in b v (meet cfg s.outs b v) s)

  unfoldable pub transfer_row : ℕ → Sets → Sets
  transfer_row b = for_from vars 0 (λ v s. write_out b v (s.ins b v || defs b v) s)

  unfoldable pub assign_block : ℕ → Sets → Sets
  assign_block b s = transfer_row b (if is_entry b then take_seed b s else meet_row b s)

  unfoldable pub assign_blocks : Sets → Sets
  assign_blocks = for_from (block_count cfg) 0 assign_block

  -- The whole loop, from full sets.
  unfoldable pub solve_assigned : Option Sets
  solve_assigned =
      rounds assign_blocks (suc (2 * (block_count cfg * vars)))
        (record { ins = λ b v. true; outs = λ b v. true; changed = false })
