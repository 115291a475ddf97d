-- ===== src/Cfg/Liveness/Paths.antt =====
-- What liveness means: `Live b v` says that from the start of the block `b` a path of the graph leads
-- to a block that reads `v`, and no block before that one on the path writes `v`. One round of the loop
-- in src/compiler/cfg.c sets only bits that have such a path, and never clears one.
use vnt.Base.{ℕ, ◌<◌, ◌≡◌, refl, sym, subst, ◌≢◌, inl, inr, Bool, true, false, arith, Bool-cases}
use vnt.Ir.Node.{no_node}
use vnt.Cfg.Graph.{Cfg, block, block_count, Edge, true_edge, false_edge}
use vnt.Cfg.Bits.{Bits, Below}
use vnt.Cfg.Flow.{Sets, Grows, Grows-trans}
use vnt.Cfg.Liveness.Loop.{live_at, next_out, next_in, relax}
use vnt.Cfg.Cells.{
  write_out, write_in, same_view, write_out-cell, write_out-ins, write_in-outs, write_out-quiet,
  write_in-quiet, write_out-origin, write_in-origin, write_out-Grows, write_in-Grows,
}

module _ (cfg : Cfg) (uses defs : Bits) where
  pub data Live : ℕ → ℕ → Type 0 where
    read : {b v : ℕ} → uses b v ≡ true → Live b v
    onward : {b c v : ℕ} → defs b v ≡ false → Edge cfg b c → Live c v → Live b v

  -- Live behind the block: at the start of a successor.
  abbrev pub LiveOut : ℕ → ℕ → Type 0
  LiveOut b v = (c : ℕ) × Edge cfg b c × Live c v

  -- Each set bit has a path, and follows from the bits that it is computed from.
  pub record IsJustified (s : Sets) : Type 0 where
    pub ins : (b v : ℕ) → s.ins b v ≡ true → Live b v
    pub outs : (b v : ℕ) → s.outs b v ≡ true → LiveOut b v
    pub next_ins : (b v : ℕ) → s.ins b v ≡ true → next_in uses defs (s.outs b v) b v ≡ true
    pub next_outs : (b v : ℕ) → s.outs b v ≡ true → next_out cfg s.ins b v ≡ true

  live_at-Live : (ins : Bits) (c v : ℕ) → live_at ins c v ≡ true → (c ≢ no_node) × (ins c v ≡ true)
  unfolding live_at
  live_at-Live ins c v h = ground arith

  next_out-LiveOut :
      (s : Sets) (b v : ℕ) → IsJustified s → next_out cfg s.ins b v ≡ true → LiveOut b v
  unfolding next_out
  next_out-LiveOut s b v p h =
      let t = (block cfg b).true_successor in
      let f = (block cfg b).false_successor in
      elim (Bool-cases (live_at s.ins t v)) [
        | inl on ↦ let k = live_at-Live s.ins t v on in (t, true_edge refl k.0, p.ins t v k.1)
        | inr off ↦
            let k = live_at-Live s.ins f v (ground arith) in (f, false_edge refl k.0, p.ins f v k.1)
      ]

  next_in-Live :
      (s : Sets) (b v : ℕ) → IsJustified s → next_in uses defs (s.outs b v) b v ≡ true → Live b v
  unfolding next_in
  next_in-Live s b v p h = elim (Bool-cases (uses b v)) [
    | inl use_b ↦ read use_b
    | inr no_use ↦ let behind = p.outs b v (ground arith) in onward (ground arith) behind.1 behind.2
  ]

  live_at_mono : (m n : Bits) (c v : ℕ) → Below m n → live_at m c v ≡ true → live_at n c v ≡ true
  unfolding live_at
  live_at_mono m n c v h k = ground (arith, h c v)

  next_out_mono :
      (m n : Bits) (b v : ℕ) → Below m n → next_out cfg m b v ≡ true → next_out cfg n b v ≡ true
  unfolding next_out
  next_out_mono m n b v h k =
      let x = live_at_mono m n (block cfg b).true_successor v h in
      let y = live_at_mono m n (block cfg b).false_successor v h in ground (arith, x, y)

  next_in_mono :
      (x y : Bool) (b v : ℕ)
      → (x ≡ true → y ≡ true)
      → next_in uses defs x b v ≡ true
      → next_in uses defs y b v ≡ true
  unfolding next_in
  next_in_mono x y b v h k = ground (arith, h)

  module _ (vars : ℕ) (b v : ℕ) (lb : b < block_count cfg) (lv : v < vars) (s : Sets)
      (p : IsJustified s) where
    -- The two halves of a round: the set behind the block, then the set before it.
    half_out : Sets
    half_out = write_out b v (next_out cfg s.ins b v) s

    half_in : Sets
    half_in = write_in b v (next_in uses defs (s.outs b v) b v) s

    half_out-Grows : Grows same_view (block_count cfg) vars s half_out
    unfolding half_out
    half_out-Grows =
        write_out-Grows b v (next_out cfg s.ins b v) s (block_count cfg) vars lb lv
          (p.next_outs b v)

    half_in-Grows : Grows same_view (block_count cfg) vars s half_in
    unfolding half_in
    half_in-Grows =
        write_in-Grows b v (next_in uses defs (s.outs b v) b v) s (block_count cfg) vars lb lv
          (p.next_ins b v)

    same_ins : half_out.ins ≡ s.ins
    unfolding half_out
    same_ins = write_out-ins b v (next_out cfg s.ins b v) s

    same_outs : half_in.outs ≡ s.outs
    unfolding half_in
    same_outs = write_in-outs b v (next_in uses defs (s.outs b v) b v) s

    -- A bit behind a block is new only where it follows from a successor.
    half_out-next : (i j : ℕ) → half_out.outs i j ≡ true → next_out cfg s.ins i j ≡ true
    unfolding half_out
    half_out-next i j h = elim (write_out-origin b v (next_out cfg s.ins b v) s i j h) [
      | inl old ↦ p.next_outs i j old
      | inr new ↦ rw (new.0, new.1) new.2
    ]

    half_in-next : (i j : ℕ) → half_in.ins i j ≡ true → next_in uses defs (s.outs i j) i j ≡ true
    unfolding half_in
    half_in-next i j h = elim (write_in-origin b v (next_in uses defs (s.outs b v) b v) s i j h) [
      | inl old ↦ p.next_ins i j old
      | inr new ↦ rw (new.0, new.1) new.2
    ]

    half_out-IsJustified : IsJustified half_out
    half_out-IsJustified = record {
      ins = λ i j h. p.ins i j (subst (λ m. m i j ≡ true) same_ins h);
      outs = λ i j h. next_out-LiveOut s i j p (half_out-next i j h);
      next_ins = λ i j h.
          next_in_mono (s.outs i j) (half_out.outs i j) i j (half_out-Grows.outs i j)
            (p.next_ins i j (subst (λ m. m i j ≡ true) same_ins h));
      next_outs =
          λ i j h. subst (λ m. next_out cfg m i j ≡ true) (sym same_ins) (half_out-next i j h);
    }

    half_in-IsJustified : IsJustified half_in
    half_in-IsJustified = record {
      ins = λ i j h. next_in-Live s i j p (half_in-next i j h);
      outs = λ i j h. p.outs i j (subst (λ m. m i j ≡ true) same_outs h);
      next_ins = λ i j h.
          subst (λ m. next_in uses defs (m i j) i j ≡ true) (sym same_outs) (half_in-next i j h);
      next_outs = λ i j h.
          next_out_mono s.ins half_in.ins i j half_in-Grows.ins
            (p.next_outs i j (subst (λ m. m i j ≡ true) same_outs h));
    }

  -- The cell of a block and a variable satisfies the equations of the analysis.
  pub record Solves (s : Sets) (b v : ℕ) : Type 0 where
    pub outs : s.outs b v ≡ next_out cfg s.ins b v
    pub ins : s.ins b v ≡ next_in uses defs (s.outs b v) b v

  module _ (vars : ℕ) where
    -- What part of a round does: bits keep their paths, none is cleared, and the flag tells.
    pub record Steps (s t : Sets) : Type 0 where
      pub grows : Grows same_view (block_count cfg) vars s t
      pub justified : IsJustified t

    module _ (b v : ℕ) (lb : b < block_count cfg) (lv : v < vars) (s : Sets)
        (p : IsJustified s) where
      relax_halves :
          relax cfg uses defs vars b v s
          ≡ half_in vars b v lb lv
              (half_out vars b v lb lv s p)
              (half_out-IsJustified vars b v lb lv s p)
      unfolding relax half_in half_out
      relax_halves = rw write_out-cell

      pub relax-Steps : Steps s (relax cfg uses defs vars b v s)
      relax-Steps =
          let q = half_out-IsJustified vars b v lb lv s p in
          rw relax_halves (record {
            grows =
                Grows-trans same_view (block_count cfg) vars (half_out-Grows vars b v lb lv s p)
                  (half_in-Grows vars b v lb lv _ q);
            justified = half_in-IsJustified vars b v lb lv _ q;
          })

      -- A round that leaves the flag down found the equations satisfied.
      pub relax-Solves : (relax cfg uses defs vars b v s).changed ≡ false → Solves s b v
      unfolding half_out half_in
      relax-Solves h =
          let q = half_out-IsJustified vars b v lb lv s p in
          let u = half_out vars b v lb lv s p in
          let h' : (half_in vars b v lb lv u q).changed ≡ false =
            subst (λ (t : Sets). t.changed ≡ false) relax_halves h in
          let back = (half_in-Grows vars b v lb lv u q).same h' in
          let quiet : u.changed ≡ false = subst (λ (t : Sets). t.changed ≡ false) back h' in
          let start = (half_out-Grows vars b v lb lv s p).same quiet in
          let eq_in = write_in-quiet b v (next_in uses defs (u.outs b v) b v) u h' in
          record {
            outs = write_out-quiet b v (next_out cfg s.ins b v) s quiet;
            ins = subst (λ (t : Sets). t.ins b v ≡ next_in uses defs (t.outs b v) b v) start eq_in;
          }
