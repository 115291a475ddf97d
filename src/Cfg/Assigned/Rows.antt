-- ===== src/Cfg/Assigned/Rows.antt =====
-- The parts of a round of the loop of `vnt_cfg_check_definite_assignment` in src/compiler/cfg.c.
use vnt.Base.{
  ℕ, zero, suc, ◌+◌, ◌≤◌, ◌<◌, ◌≡◌, subst, inl, inr, Bool, false, arith, ◌==◌, ==_iff, Bool-cases,
}
use vnt.Ir.Node.{no_node}
use vnt.Cfg.Graph.{Cfg, block_count}
use vnt.Cfg.Bits.{Bits}
use vnt.Cfg.Flow.{Sets, Grows, Grows-refl, Grows-trans, complement, for_from}
use vnt.Cfg.Assigned.Paths.{IsJustified}

module _ (cfg : Cfg) (is_entry : ℕ → Bool) (seed defs : Bits) (vars : ℕ)
    (fits : block_count cfg ≤ no_node) where
  -- What part of a round does: bits keep their paths, none is set, and the flag tells.
  pub record Steps (s t : Sets) : Type 0 where
    pub grows : Grows complement (block_count cfg) vars s t
    pub justified : IsJustified cfg is_entry seed defs t

  pub Steps-refl : (s : Sets) → IsJustified cfg is_entry seed defs s → Steps s s
  Steps-refl s p = record { grows = Grows-refl complement (block_count cfg) vars s; justified = p }

  pub Steps-trans : {s t u : Sets} → Steps s t → Steps t u → Steps s u
  Steps-trans f g = record {
    grows = Grows-trans complement (block_count cfg) vars f.grows g.grows;
    justified = g.justified;
  }

  -- With the flag down at the end, nothing was changed on the way.
  pub quiet_start : {s t : Sets} → Steps s t → t.changed ≡ false → s.changed ≡ false
  quiet_start {s} {t} f h = subst (λ (x : Sets). x.changed ≡ false) (f.grows.same h) h

  -- A counted loop whose rounds are such steps is one, and where it leaves the flag down each round
  -- found what it makes hold.
  module _ (bound : ℕ) (body : ℕ → Sets → Sets) (Q : Sets → ℕ → Type 0)
      (keep : (i : ℕ) (s : Sets)
        → i < bound
        → IsJustified cfg is_entry seed defs s
        → Steps s (body i s))
      (finds : (i : ℕ) (s : Sets)
        → i < bound
        → IsJustified cfg is_entry seed defs s
        → (body i s).changed ≡ false
        → Q s i) where
    pub for_from-Steps :
        (n i : ℕ) (s : Sets)
        → i + n ≤ bound
        → IsJustified cfg is_entry seed defs s
        → Steps s (for_from n i body s)
    unfolding for_from
    for_from-Steps zero i s h p = Steps-refl s p
    for_from-Steps (suc n) i s h p =
        let first = keep i s (omega arith) p in
        Steps-trans first (for_from-Steps n (i + 1) (body i s) (omega arith) first.justified)

    pub for_from-finds :
        (n i : ℕ) (s : Sets)
        → i + n ≤ bound
        → IsJustified cfg is_entry seed defs s
        → (for_from n i body s).changed ≡ false
        → (j : ℕ) → i ≤ j
        → j < i + n
        → Q s j
    unfolding for_from
    for_from-finds zero i s h p c j lo hi = absurd (omega arith)
    for_from-finds (suc n) i s h p c j lo hi =
        let first = keep i s (omega arith) p in
        let rest = for_from-Steps n (i + 1) (body i s) (omega arith) first.justified in
        let quiet = quiet_start rest c in
        elim (Bool-cases (j == i)) [
          | inl at ↦ rw ((==_iff j i).0 at) (finds i s (omega arith) p quiet)
          | inr later ↦
              subst (λ t. Q t j) (first.grows.same quiet)
                (for_from-finds n (i + 1) (body i s) (omega arith) first.justified c j
                  (ground arith) (omega arith))
        ]
