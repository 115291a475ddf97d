-- ===== src/Cfg/Liveness/Rounds.antt =====
-- A whole round of the loop of `vnt_cfg_compute_liveness` in src/compiler/cfg.c.
use vnt.Base.{
  ℕ, zero, suc, ◌+◌, ◌≤◌, ◌<◌, ◌≡◌, subst, inl, inr, false, arith, ◌==◌, ==_iff, Bool-cases,
}
use vnt.Cfg.Graph.{Cfg, block_count}
use vnt.Cfg.Bits.{Bits}
use vnt.Cfg.Flow.{Sets, Grows-refl, Grows-trans}
use vnt.Cfg.Liveness.Loop.{relax, relax_block, relax_blocks}
use vnt.Cfg.Cells.{same_view}
use vnt.Cfg.Liveness.Paths.{IsJustified, Solves, Steps, relax-Steps, relax-Solves}

module _ (cfg : Cfg) (uses defs : Bits) (vars : ℕ) where
  Steps-refl : (s : Sets) → IsJustified cfg uses defs s → Steps cfg uses defs vars s s
  Steps-refl s p = record { grows = Grows-refl same_view (block_count cfg) vars s; justified = p }

  Steps-trans :
      {s t u : Sets}
      → Steps cfg uses defs vars s t
      → Steps cfg uses defs vars t u
      → Steps cfg uses defs vars s u
  Steps-trans f g = record {
    grows = Grows-trans same_view (block_count cfg) vars f.grows g.grows;
    justified = g.justified;
  }

  -- With the flag down at the end, nothing was changed on the way.
  quiet_start : {s t : Sets} → Steps cfg uses defs vars s t → t.changed ≡ false → s.changed ≡ false
  quiet_start {s} {t} f h = subst (λ (x : Sets). x.changed ≡ false) (f.grows.same h) h

  relax_block-Steps :
      (n v b : ℕ) (s : Sets)
      → b < block_count cfg
      → v + n ≤ vars
      → IsJustified cfg uses defs s
      → Steps cfg uses defs vars s (relax_block cfg uses defs vars n v b s)
  unfolding relax_block
  relax_block-Steps zero v b s lb h p = Steps-refl s p
  relax_block-Steps (suc n) v b s lb h p =
      let first = relax-Steps cfg uses defs vars b v lb (omega arith) s p in
      Steps-trans first (relax_block-Steps n (v + 1) b _ lb (omega arith) first.justified)

  relax_block-Solves :
      (n v b : ℕ) (s : Sets)
      → b < block_count cfg
      → v + n ≤ vars
      → IsJustified cfg uses defs s
      → (relax_block cfg uses defs vars n v b s).changed ≡ false
      → (w : ℕ) → v ≤ w
      → w < v + n
      → Solves cfg uses defs s b w
  unfolding relax_block
  relax_block-Solves zero v b s lb h p c w lo hi = absurd (omega arith)
  relax_block-Solves (suc n) v b s lb h p c w lo hi =
      let first = relax-Steps cfg uses defs vars b v lb (omega arith) s p in
      let rest =
        relax_block-Steps n (v + 1) b (relax cfg uses defs vars b v s) lb (omega arith)
          first.justified in
      let quiet = quiet_start rest c in
      elim (Bool-cases (w == v)) [
        | inl at ↦
            rw ((==_iff w v).0 at) (relax-Solves cfg uses defs vars b v lb (omega arith) s p quiet)
        | inr later ↦
            subst (λ (t : Sets). Solves cfg uses defs t b w) (first.grows.same quiet)
              (relax_block-Solves n (v + 1) b _ lb (omega arith) first.justified c w (ground arith)
                (omega arith))
      ]

  pub relax_blocks-Steps :
      (n : ℕ) (s : Sets)
      → n ≤ block_count cfg
      → IsJustified cfg uses defs s
      → Steps cfg uses defs vars s (relax_blocks cfg uses defs vars n s)
  unfolding relax_blocks
  relax_blocks-Steps zero s h p = Steps-refl s p
  relax_blocks-Steps (suc b) s h p =
      let first = relax_block-Steps vars 0 b s h (omega arith) p in
      Steps-trans first (relax_blocks-Steps b _ (omega arith) first.justified)

  pub relax_blocks-Solves :
      (n : ℕ) (s : Sets)
      → n ≤ block_count cfg
      → IsJustified cfg uses defs s
      → (relax_blocks cfg uses defs vars n s).changed ≡ false
      → (b v : ℕ) → b < n
      → v < vars
      → Solves cfg uses defs s b v
  unfolding relax_blocks
  relax_blocks-Solves zero s h p c b v lb lv = absurd (omega arith)
  relax_blocks-Solves (suc k) s h p c b v lb lv =
      let first = relax_block-Steps vars 0 k s h (omega arith) p in
      let rest =
        relax_blocks-Steps k (relax_block cfg uses defs vars vars 0 k s) (omega arith)
          first.justified in
      let quiet = quiet_start rest c in
      elim (Bool-cases (b == k)) [
        | inl at ↦
            rw ((==_iff b k).0 at)
              (relax_block-Solves vars 0 k s h (omega arith) p quiet v (omega arith) (omega arith))
        | inr earlier ↦
            subst (λ (t : Sets). Solves cfg uses defs t b v) (first.grows.same quiet)
              (relax_blocks-Solves k _ (omega arith) first.justified c b v (ground arith) lv)
      ]
