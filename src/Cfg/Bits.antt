-- ===== src/Cfg/Bits.antt =====
-- Bit matrices with a row for each block and a column for each variable: the `unsigned char` arrays of
-- src/compiler/cfg.c, row-major [block_count][variable_count], addressed by row and column.
use vnt.Base.{
  ℕ, zero, suc, ◌+◌, ◌*◌, ◌≤◌, ◌<◌, ◌≡◌, subst, inl, inr, Bool, true, false, ◌&&◌, arith, ◌==◌,
  if◌then◌else◌, ==_iff, Bool-cases,
}

abbrev pub Bits : Type 0
Bits = ℕ → ℕ → Bool

-- bits[b * vars + v] = x
unfoldable pub set_bit : Bits → ℕ → ℕ → Bool → Bits
set_bit m b v x i j = if i == b && j == v then x else m i j

-- Every bit of `m` is set in `n`.
abbrev pub Below : Bits → Bits → Type 0
Below m n = (b v : ℕ) → m b v ≡ true → n b v ≡ true

pub Below-set_bit : (m : Bits) (b v : ℕ) → Below m (set_bit m b v true)
unfolding set_bit
Below-set_bit m b v i j h = ground arith

-- The cells of a matrix that are not set: in one row, and in the rows below a bound.
zeros_row : (ℕ → Bool) → ℕ → ℕ
zeros_row r zero = 0
zeros_row r (suc n) = zeros_row r n + (if r n then 0 else 1)

unfoldable pub zeros : Bits → ℕ → ℕ → ℕ
unfolding zeros_row
zeros m zero vars = 0
zeros m (suc blocks) vars = zeros m blocks vars + zeros_row (m blocks) vars

zeros_row-le :
    (r s : ℕ → Bool) (n : ℕ) → ((v : ℕ) → r v ≡ true → s v ≡ true) → zeros_row s n ≤ zeros_row r n
unfolding zeros_row
zeros_row-le r s zero h = omega arith
zeros_row-le r s (suc n) h = ground (arith, zeros_row-le r s n h, h n)

zeros_row-lt :
    (r s : ℕ → Bool) (n v : ℕ)
    → ((w : ℕ) → r w ≡ true → s w ≡ true)
    → v < n
    → r v ≡ false
    → s v ≡ true
    → zeros_row s n < zeros_row r n
unfolding zeros_row
zeros_row-lt r s zero v h lt off on = absurd (omega arith)
zeros_row-lt r s (suc n) v h lt off on = elim (Bool-cases (v == n)) [
  | inl last ↦
      let e = (==_iff v n).0 last in
      let le = zeros_row-le r s n h in rw (rw e at off, rw e at on) (omega arith)
  | inr earlier ↦ ground (arith, zeros_row-lt r s n v h, h n)
]

module _ (m n : Bits) (h : Below m n) where
  pub zeros-le : (blocks vars : ℕ) → zeros n blocks vars ≤ zeros m blocks vars
  unfolding zeros
  zeros-le zero vars = omega arith
  zeros-le (suc b) vars = omega (arith, zeros-le b vars, zeros_row-le (m b) (n b) vars (h b))

  pub zeros-lt :
      (blocks vars b v : ℕ)
      → b < blocks
      → v < vars
      → m b v ≡ false
      → n b v ≡ true
      → zeros n blocks vars < zeros m blocks vars
  unfolding zeros
  zeros-lt zero vars b v lb lv off on = absurd (omega arith)
  zeros-lt (suc k) vars b v lb lv off on = elim (Bool-cases (b == k)) [
    | inl last ↦
        let e = (==_iff b k).0 last in
        let row =
          zeros_row-lt (m k) (n k) vars v (h k) lv (subst (λ i. m i v ≡ false) e off)
            (subst (λ i. n i v ≡ true) e on) in
        omega (arith, zeros-le k vars, row)
    | inr earlier ↦
        let before = zeros-lt k vars b v (ground arith) lv off on in
        omega (arith, before, zeros_row-le (m k) (n k) vars (h k))
  ]

zeros_row-bound : (r : ℕ → Bool) (n : ℕ) → zeros_row r n ≤ n
unfolding zeros_row
zeros_row-bound r zero = omega arith
zeros_row-bound r (suc n) = ground (arith, zeros_row-bound r n)

pub zeros-bound : (m : Bits) (blocks vars : ℕ) → zeros m blocks vars ≤ blocks * vars
unfolding zeros
zeros-bound m zero vars = omega arith
zeros-bound m (suc b) vars = grind (arith, zeros-bound m b vars, zeros_row-bound (m b) vars)
