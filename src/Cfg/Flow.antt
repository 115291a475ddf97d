-- ===== src/Cfg/Flow.antt =====
-- The two sets that the data-flow loops of src/compiler/cfg.c keep for each block, with the flag of
-- the round, and how a round may change them.
use vnt.Base.{
  ℕ, zero, suc, ◌+◌, ◌*◌, ◌≤◌, ◌<◌, ◌≡◌, refl, ap, ◌∙◌, inl, inr, Bool, true, false, not, Option,
  none, some, arith, if◌then◌else◌, Bool-cases, if_true, if_false,
}
use vnt.Cfg.Bits.{Bits, Below, zeros, zeros-le, zeros-lt, zeros-bound}

pub record Sets : Type 0 where
  pub ins : Bits
  pub outs : Bits
  pub changed : Bool

-- changed = 0
abbrev pub begin_round : Sets → Sets
begin_round s = record s { changed = false }

-- `Grows` is about sets that only gain cells, seen through `view`: the identity for an analysis that
-- starts with empty sets, the complement for one that starts with full ones.
unfoldable pub complement : Bits → Bits
complement m b v = not (m b v)

module _ (view : Bits → Bits) (blocks vars : ℕ) where
  -- The cells that are still to be gained.
  abbrev pub missing : Sets → ℕ
  missing s = zeros (view s.ins) blocks vars + zeros (view s.outs) blocks vars

  -- A cell of one of the sets is gained.
  pub data Flip (s t : Sets) : Type 0 where
    flip_in :
        (b v : ℕ)
        → b < blocks
        → v < vars
        → view s.ins b v ≡ false
        → view t.ins b v ≡ true
        → Flip s t
    flip_out :
        (b v : ℕ)
        → b < blocks
        → v < vars
        → view s.outs b v ≡ false
        → view t.outs b v ≡ true
        → Flip s t

  -- Steps of a round that only gain cells: the flag says whether one was gained.
  pub record Grows (s t : Sets) : Type 0 where
    pub ins : Below (view s.ins) (view t.ins)
    pub outs : Below (view s.outs) (view t.outs)
    pub kept : s.changed ≡ true → t.changed ≡ true
    pub fewer : s.changed ≡ false → t.changed ≡ true → missing t < missing s
    pub same : t.changed ≡ false → t ≡ s

  pub Grows-refl : (s : Sets) → Grows s s
  Grows-refl s = record {
    ins = λ b v h. h;
    outs = λ b v h. h;
    kept = λ h. h;
    fewer = λ h k. cc;
    same = λ h. refl;
  }

  missing-le :
      (s t : Sets)
      → Below (view s.ins) (view t.ins)
      → Below (view s.outs) (view t.outs)
      → missing t ≤ missing s
  missing-le s t hi ho = omega (
    arith,
    zeros-le (view s.ins) (view t.ins) hi blocks vars,
    zeros-le (view s.outs) (view t.outs) ho blocks vars,
  )

  missing-lt :
      (s t : Sets)
      → Below (view s.ins) (view t.ins)
      → Below (view s.outs) (view t.outs)
      → Flip s t
      → missing t < missing s
  missing-lt s t hi ho (flip_in b v lb lv off on) = omega (
    arith,
    zeros-lt (view s.ins) (view t.ins) hi blocks vars b v lb lv off on,
    zeros-le (view s.outs) (view t.outs) ho blocks vars,
  )
  missing-lt s t hi ho (flip_out b v lb lv off on) = omega (
    arith,
    zeros-le (view s.ins) (view t.ins) hi blocks vars,
    zeros-lt (view s.outs) (view t.outs) ho blocks vars b v lb lv off on,
  )

  -- A step that gains a cell and raises the flag.
  pub Grows-Flip :
      (s t : Sets)
      → Below (view s.ins) (view t.ins)
      → Below (view s.outs) (view t.outs)
      → Flip s t
      → t.changed ≡ true
      → Grows s t
  Grows-Flip s t hi ho f c = record {
    ins = hi;
    outs = ho;
    kept = λ h. c;
    fewer = λ h k. missing-lt s t hi ho f;
    same = λ h. cc;
  }

  pub Grows-trans : {s t u : Sets} → Grows s t → Grows t u → Grows s u
  Grows-trans {s} {t} {u} f g = record {
    ins = λ b v h. g.ins b v (f.ins b v h);
    outs = λ b v h. g.outs b v (f.outs b v h);
    kept = λ h. g.kept (f.kept h);
    fewer = λ h k. elim (Bool-cases t.changed) [
      | inl before ↦ omega (arith, f.fewer h before, missing-le t u g.ins g.outs)
      | inr after ↦ omega (arith, g.fewer after k, missing-le s t f.ins f.outs)
    ];
    same = λ h. elim (Bool-cases t.changed) [
      | inl before ↦ let k = g.kept before in cc
      | inr after ↦ g.same h ∙ f.same after
    ];
  }

  -- No more cells than there are can be gained.
  pub missing-bound : (s : Sets) → missing s ≤ 2 * (blocks * vars)
  missing-bound s =
      omega (arith, zeros-bound (view s.ins) blocks vars, zeros-bound (view s.outs) blocks vars)

-- do { changed = 0; round } while (changed), on fuel: `none` is a loop that was cut short.
unfoldable pub rounds : (Sets → Sets) → ℕ → Sets → Option Sets
rounds round zero s = none
rounds round (suc fuel) s =
    let next = round (begin_round s) in
    let rest = rounds round fuel next in if next.changed then rest else some next

-- A round that only gains cells, and raises the flag when it does, is repeated until it changes
-- nothing; more rounds than there are cells to gain are never made. What each round keeps holds then.
pub rounds_total :
    (view : Bits → Bits) (blocks vars : ℕ) (round : Sets → Sets) (P : Sets → Type 0)
    → ((s : Sets) → P s → P (record s { changed = false }))
    → ((s : Sets) → P s → P (round s) × Grows view blocks vars s (round s))
    → (fuel : ℕ) (s : Sets) → P s
    → missing view blocks vars s < fuel
    → (t : Sets) × (rounds round fuel s ≡ some t) × P t × (t.changed ≡ false) × (round t ≡ t)
unfolding rounds
rounds_total view blocks vars round P init keep zero s p m = absurd (omega arith)
rounds_total view blocks vars round P init keep (suc fuel) s p m =
    let (p', g) = keep (begin_round s) (init s p) in
    elim (Bool-cases (round (begin_round s)).changed) [
      | inl on ↦
          let fewer = g.fewer refl on in
          let again =
            rounds_total view blocks vars round P init keep fuel (round (begin_round s)) p'
              (omega arith) in
          (again.0, if_true _ _ _ on ∙ again.1, again.2, again.3, again.4)
      | inr off ↦ (round (begin_round s), if_false _ _ _ off, p', off, ap round (g.same off))
    ]

-- for (i = ...; n rounds are left; ++i) body(i)
unfoldable pub for_from : ℕ → ℕ → (ℕ → Sets → Sets) → Sets → Sets
for_from zero i body s = s
for_from (suc n) i body s = for_from n (i + 1) body (body i s)
