-- ===== src/Cfg/Liveness/Loop.antt =====
-- The loop of `vnt_cfg_compute_liveness` in src/compiler/cfg.c, over the bits that a block's effects
-- set: `uses` for what it reads, `defs` for what it writes.
use vnt.Base.{ℕ, zero, suc, ◌+◌, ◌*◌, Bool, false, not, ◌&&◌, ◌||◌, Option, ◌==◌}
use vnt.Ir.Node.{no_node}
use vnt.Cfg.Graph.{Cfg, block, block_count}
use vnt.Cfg.Bits.{Bits}
use vnt.Cfg.Cells.{write_out, write_in}
use vnt.Cfg.Flow.{Sets, rounds}

-- in[succ * vars + v], where there is a successor
unfoldable pub live_at : Bits → ℕ → ℕ → Bool
live_at ins succ v = not (succ == no_node) && ins succ v

unfoldable pub next_out : Cfg → Bits → ℕ → ℕ → Bool
unfolding live_at
next_out cfg ins b v =
    live_at ins (block cfg b).true_successor v || live_at ins (block cfg b).false_successor v

unfoldable pub next_in : Bits → Bits → Bool → ℕ → ℕ → Bool
next_in uses defs out b v = uses b v || (out && not (defs b v))

module _ (cfg : Cfg) (uses defs : Bits) (vars : ℕ) where
  -- One round for one variable of one block.
  unfoldable pub relax : ℕ → ℕ → Sets → Sets
  relax b v s =
      let out = next_out cfg s.ins b v in
      write_in b v (next_in uses defs out b v) (write_out b v out s)

  -- for (v = ...; n variables are left; ++v)
  unfoldable pub relax_block : ℕ → ℕ → ℕ → Sets → Sets
  relax_block zero v b s = s
  relax_block (suc n) v b s = relax_block n (v + 1) b (relax b v s)

  -- for (rev = n; rev > 0; --rev)
  unfoldable pub relax_blocks : ℕ → Sets → Sets
  relax_blocks zero s = s
  relax_blocks (suc b) s = relax_blocks b (relax_block vars 0 b s)

  -- The whole loop, from empty sets.
  unfoldable pub solve_liveness : Option Sets
  solve_liveness =
      rounds (relax_blocks (block_count cfg)) (suc (2 * (block_count cfg * vars)))
        (record { ins = λ b v. false; outs = λ b v. false; changed = false })
