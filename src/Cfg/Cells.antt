-- ===== src/Cfg/Cells.antt =====
-- Writing one cell of a set in the loops of src/compiler/cfg.c: the flag, and the cells gained.
use vnt.Base.{
  ℕ, ◌<◌, ◌≡◌, refl, ◌⊎◌, inl, inr, Bool, true, false, arith, if◌then◌else◌, Bool-cases, differ,
}
use vnt.Cfg.Bits.{Bits, set_bit}
use vnt.Cfg.Flow.{Sets, Grows, Grows-refl, Grows-Flip, flip_in, flip_out, complement}

-- if (cell != value) { cell = value; changed = 1; }
unfoldable pub write_out : ℕ → ℕ → Bool → Sets → Sets
write_out b v x s =
    if differ (s.outs b v) x then record s { outs = set_bit s.outs b v x; changed = true } else s

unfoldable pub write_in : ℕ → ℕ → Bool → Sets → Sets
write_in b v x s =
    if differ (s.ins b v) x then record s { ins = set_bit s.ins b v x; changed = true } else s

abbrev pub same_view : Bits → Bits
same_view m = m

module _ (b v : ℕ) (x : Bool) (s : Sets) where
  pub write_out-cell : (write_out b v x s).outs b v ≡ x
  unfolding write_out set_bit
  write_out-cell = elim (Bool-cases (differ (s.outs b v) x)) [
    | inl new ↦ rw new (ground arith)
    | inr old ↦ rw old (ground arith)
  ]

  pub write_out-ins : (write_out b v x s).ins ≡ s.ins
  unfolding write_out
  write_out-ins = ground arith

  pub write_in-outs : (write_in b v x s).outs ≡ s.outs
  unfolding write_in
  write_in-outs = ground arith

  -- The cell holds the value, or the flag is up.
  pub write_out-quiet : (write_out b v x s).changed ≡ false → s.outs b v ≡ x
  unfolding write_out
  write_out-quiet h = ground arith

  pub write_in-quiet : (write_in b v x s).changed ≡ false → s.ins b v ≡ x
  unfolding write_in
  write_in-quiet h = ground arith

  -- A cell that is set afterwards was set before, or is the one written.
  pub write_out-origin :
      (i j : ℕ)
      → (write_out b v x s).outs i j ≡ true
      → (s.outs i j ≡ true) ⊎ (i ≡ b) × (j ≡ v) × (x ≡ true)
  unfolding write_out set_bit
  write_out-origin i j h = ground arith

  pub write_in-origin :
      (i j : ℕ)
      → (write_in b v x s).ins i j ≡ true
      → (s.ins i j ≡ true) ⊎ (i ≡ b) × (j ≡ v) × (x ≡ true)
  unfolding write_in set_bit
  write_in-origin i j h = ground arith

  module _ (blocks vars : ℕ) (lb : b < blocks) (lv : v < vars) where
    pub write_out-Grows :
        (s.outs b v ≡ true → x ≡ true) → Grows same_view blocks vars s (write_out b v x s)
    unfolding write_out set_bit
    write_out-Grows up = elim (Bool-cases (s.outs b v)) [
      | inl on ↦ rw (on, up on) (Grows-refl same_view blocks vars s)
      | inr off ↦ elim (Bool-cases x) [
        | inr no_x ↦ rw (off, no_x) (Grows-refl same_view blocks vars s)
        | inl yes_x ↦
            rw (off, yes_x)
              (Grows-Flip same_view blocks vars s _ (λ i j h. h) (λ i j h. ground arith)
                (flip_out b v lb lv off (ground arith)) refl)
      ]
    ]

    pub write_in-Grows :
        (s.ins b v ≡ true → x ≡ true) → Grows same_view blocks vars s (write_in b v x s)
    unfolding write_in set_bit
    write_in-Grows up = elim (Bool-cases (s.ins b v)) [
      | inl on ↦ rw (on, up on) (Grows-refl same_view blocks vars s)
      | inr off ↦ elim (Bool-cases x) [
        | inr no_x ↦ rw (off, no_x) (Grows-refl same_view blocks vars s)
        | inl yes_x ↦
            rw (off, yes_x)
              (Grows-Flip same_view blocks vars s _ (λ i j h. ground arith) (λ i j h. h)
                (flip_in b v lb lv off (ground arith)) refl)
      ]
    ]

  -- The same for a loop that clears cells.
  pub write_out-cleared :
      (i j : ℕ)
      → (write_out b v x s).outs i j ≡ false
      → (s.outs i j ≡ false) ⊎ (i ≡ b) × (j ≡ v) × (x ≡ false)
  unfolding write_out set_bit
  write_out-cleared i j h = ground arith

  pub write_in-cleared :
      (i j : ℕ)
      → (write_in b v x s).ins i j ≡ false
      → (s.ins i j ≡ false) ⊎ (i ≡ b) × (j ≡ v) × (x ≡ false)
  unfolding write_in set_bit
  write_in-cleared i j h = ground arith

  module _ (blocks vars : ℕ) (lb : b < blocks) (lv : v < vars) where
    pub write_out-Clears :
        (s.outs b v ≡ false → x ≡ false) → Grows complement blocks vars s (write_out b v x s)
    unfolding write_out set_bit complement
    write_out-Clears down = elim (Bool-cases (s.outs b v)) [
      | inr off ↦ rw (off, down off) (Grows-refl complement blocks vars s)
      | inl on ↦ elim (Bool-cases x) [
        | inl yes_x ↦ rw (on, yes_x) (Grows-refl complement blocks vars s)
        | inr no_x ↦
            rw (on, no_x)
              (Grows-Flip complement blocks vars s _ (λ i j h. h) (λ i j h. ground arith)
                (flip_out b v lb lv (ground arith) (ground arith)) refl)
      ]
    ]

    pub write_in-Clears :
        (s.ins b v ≡ false → x ≡ false) → Grows complement blocks vars s (write_in b v x s)
    unfolding write_in set_bit complement
    write_in-Clears down = elim (Bool-cases (s.ins b v)) [
      | inr off ↦ rw (off, down off) (Grows-refl complement blocks vars s)
      | inl on ↦ elim (Bool-cases x) [
        | inl yes_x ↦ rw (on, yes_x) (Grows-refl complement blocks vars s)
        | inr no_x ↦
            rw (on, no_x)
              (Grows-Flip complement blocks vars s _ (λ i j h. ground arith) (λ i j h. h)
                (flip_in b v lb lv (ground arith) (ground arith)) refl)
      ]
    ]
