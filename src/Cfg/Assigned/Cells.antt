-- ===== src/Cfg/Assigned/Cells.antt =====
-- The writes of a round of the loop of `vnt_cfg_check_definite_assignment` in src/compiler/cfg.c.
use vnt.Base.{
  ℕ, zero, suc, ◌≤◌, ◌<◌, ◌≡◌, refl, sym, ◌∙◌, subst, ◌⊎◌, inl, inr, Bool, true, false, ◌||◌, arith,
  ◌==◌, ==_iff, Bool-cases, differ,
}
use vnt.Ir.Node.{no_node}
use vnt.Cfg.Graph.{Cfg, block_count}
use vnt.Cfg.Bits.{Bits, Below}
use vnt.Cfg.Flow.{Sets, Grows-Flip, flip_in, complement}
use vnt.Cfg.Cells.{
  write_out, write_in, write_out-ins, write_in-outs, write_out-cleared, write_in-cleared,
  write_out-Clears, write_in-Clears,
}
use vnt.Cfg.Assigned.Loop.{meet, row_differs, copy_row, take_seed}
use vnt.Cfg.Assigned.Paths.{wanted, IsJustified, clear_ins, clear_outs}
use vnt.Cfg.Assigned.Rows.{Steps, Steps-refl}

-- Sets that only lose cells, read as a gain of their complement.
complement_down :
    (m n : Bits) → Below (complement m) (complement n) → (i j : ℕ) → m i j ≡ false → n i j ≡ false
unfolding complement
complement_down m n h i j e = ground (arith, h i j)

complement_of : (m : Bits) (i j : ℕ) → m i j ≡ true → complement m i j ≡ false
unfolding complement
complement_of m i j e = rw e

complement_at : (m : Bits) (i j : ℕ) → m i j ≡ false → complement m i j ≡ true
unfolding complement
complement_at m i j e = rw e

row_differs_at :
    (m n : Bits) (b k : ℕ)
    → row_differs m n b k ≡ true
    → (j : ℕ) × (j < k) × (differ (m b j) (n b j) ≡ true)
unfolding row_differs
row_differs_at m n b zero h = cc
row_differs_at m n b (suc k) h = elim (Bool-cases (row_differs m n b k)) [
  | inl before ↦ let r = row_differs_at m n b k before in (r.0, omega (arith, r.1), r.2)
  | inr same ↦ (k, omega arith, rw same at h)
]

pub row_agrees_at :
    (m n : Bits) (b k : ℕ) → row_differs m n b k ≡ false → (j : ℕ) → j < k → m b j ≡ n b j
unfolding row_differs
row_agrees_at m n b zero h j lj = absurd (omega arith)
row_agrees_at m n b (suc k) h j lj = elim (Bool-cases (j == k)) [
  | inl at ↦ let e = (==_iff j k).0 at in let agree : m b k ≡ n b k = ground arith in rw e agree
  | inr before ↦ row_agrees_at m n b k (ground arith) j (ground arith)
]

module _ (cfg : Cfg) (is_entry : ℕ → Bool) (seed defs : Bits) (vars : ℕ)
    (fits : block_count cfg ≤ no_node) where
  module _ (b : ℕ) (lb : b < block_count cfg) where
    pub meet_cell-Steps :
        is_entry b ≡ false
        → (v : ℕ) (s : Sets) → v < vars
        → IsJustified cfg is_entry seed defs s
        → Steps cfg is_entry seed defs vars fits s (write_in b v (meet cfg s.outs b v) s)
    meet_cell-Steps e v s lv p =
        let x = meet cfg s.outs b v in
        let asked : (i j : ℕ)
            → i ≡ b
            → j ≡ v
            → x ≡ false
            → wanted cfg is_entry seed defs s.outs i j ≡ false =
          λ i j ei ej low. rw (ei, ej, e) low in
        let g =
          write_in-Clears b v x s (block_count cfg) vars lb lv
            (λ off. rw e at (p.next_ins b v off)) in
        record {
          grows = g;
          justified =
              clear_ins cfg is_entry seed defs fits s p _ (write_in-outs b v x s)
                (complement_down _ _ g.ins)
                (λ i j off. elim (write_in-cleared b v x s i j off) [
                  | inl old ↦ p.next_ins i j old
                  | inr new ↦ asked i j new.0 new.1 new.2
                ]);
        }

    pub transfer_cell-Steps :
        (v : ℕ) (s : Sets)
        → v < vars
        → IsJustified cfg is_entry seed defs s
        → Steps cfg is_entry seed defs vars fits s (write_out b v (s.ins b v || defs b v) s)
    transfer_cell-Steps v s lv p =
        let x = s.ins b v || defs b v in
        let g = write_out-Clears b v x s (block_count cfg) vars lb lv (p.next_outs b v) in
        record {
          grows = g;
          justified =
              clear_outs cfg is_entry seed defs fits s p _ (write_out-ins b v x s)
                (complement_down _ _ g.outs)
                (λ i j off. elim (write_out-cleared b v x s i j off) [
                  | inl old ↦ p.next_outs i j old
                  | inr new ↦ rw (new.0, new.1) new.2
                ]);
        }

    copy_row-cleared :
        (from to : Bits) (i j : ℕ)
        → copy_row vars from to b i j ≡ false
        → (to i j ≡ false) ⊎ (i ≡ b) × (from b j ≡ false)
    unfolding copy_row
    copy_row-cleared from to i j h = ground arith

    copy_row-at : (from to : Bits) (j : ℕ) → j < vars → copy_row vars from to b b j ≡ from b j
    unfolding copy_row
    copy_row-at from to j lj = ground arith

    copy_row-down :
        (from to : Bits)
        → ((j : ℕ) → to b j ≡ false → from b j ≡ false)
        → Below (complement to) (complement (copy_row vars from to b))
    unfolding copy_row complement
    copy_row-down from to h i j k = elim (Bool-cases (i == b)) [
      | inl at ↦
          let e = (==_iff i b).0 at in
          let off : to b j ≡ false = subst (λ x. to x j ≡ false) e (ground arith) in
          let low = h j off in
          let low' : from i j ≡ false = subst (λ x. from x j ≡ false) (sym e) low in ground arith
      | inr other ↦ rw other k
    ]

    pub take_seed-Steps :
        is_entry b ≡ true
        → (s : Sets) → IsJustified cfg is_entry seed defs s
        → Steps cfg is_entry seed defs vars fits s (take_seed cfg is_entry seed defs vars b s)
    unfolding take_seed
    take_seed-Steps e s p = elim (Bool-cases (row_differs s.ins seed b vars)) [
      | inr same ↦ rw same (Steps-refl cfg is_entry seed defs vars fits s p)
      | inl new ↦
          let at = row_differs_at s.ins seed b vars new in
          let j = at.0 in
          let down : (k : ℕ) → s.ins b k ≡ false → seed b k ≡ false =
            λ k off. rw e at (p.next_ins b k off) in
          let below = copy_row-down seed s.ins down in
          let on : s.ins b j ≡ true = elim (Bool-cases (s.ins b j)) [
            | inl set_j ↦ set_j
            | inr off ↦ let d = at.2 in let low = down j off in absurd (ground arith)
          ] in
          let low : seed b j ≡ false = let d = at.2 in ground arith in
          let t : Sets = record s { ins = copy_row vars seed s.ins b; changed = true } in
          rw new (record {
            grows =
                Grows-Flip complement (block_count cfg) vars s t below (λ i k h. h)
                  (flip_in b j lb at.1 (complement_of s.ins b j on)
                    (complement_at _ b j (copy_row-at seed s.ins j at.1 ∙ low)))
                  refl;
            justified =
                clear_ins cfg is_entry seed defs fits s p t refl (complement_down s.ins t.ins below)
                  (λ i k off. elim (copy_row-cleared seed s.ins i k off) [
                    | inl old ↦ p.next_ins i k old
                    | inr fresh ↦ rw (fresh.0, e) fresh.1
                  ]);
          })
    ]
