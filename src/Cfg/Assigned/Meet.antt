-- ===== src/Cfg/Assigned/Meet.antt =====
-- The meet over the predecessors in src/compiler/cfg.c.
use vnt.Base.{
  ℕ, zero, suc, ◌+◌, ◌≤◌, ◌<◌, ◌≡◌, refl, subst, inl, inr, Bool, true, false, ◌&&◌, arith, ◌==◌,
  ==_iff, Bool-cases,
}
use vnt.Cfg.Graph.{Cfg, block_count}
use vnt.Cfg.Bits.{Bits}
use vnt.Cfg.Assigned.Loop.{block_has_predecessor, meet_loop, meet}

module _ (cfg : Cfg) (b v : ℕ) where
  -- Why the meet can be 0: a predecessor that is 0, or none at all.
  pub data Fails (outs : Bits) (n p : ℕ) : Type 0 where
    from_predecessor :
        (q : ℕ)
        → p ≤ q
        → q < p + n
        → block_has_predecessor cfg q b ≡ true
        → outs q v ≡ false
        → Fails outs n p
    no_predecessor :
        ((q : ℕ) → p ≤ q → q < p + n → block_has_predecessor cfg q b ≡ false) → Fails outs n p

  Fails-step :
      (outs : Bits) (n p : ℕ)
      → block_has_predecessor cfg p b ≡ false
      → Fails outs n (p + 1)
      → Fails outs (suc n) p
  Fails-step outs n p h (from_predecessor q lo hi e o) =
      from_predecessor q (omega arith) (omega arith) e o
  Fails-step outs n p h (no_predecessor k) = no_predecessor λ q lo hi. elim (Bool-cases (q == p)) [
    | inl at ↦ rw ((==_iff q p).0 at) h
    | inr later ↦ k q (ground arith) (omega arith)
  ]

  -- With a predecessor seen, only a predecessor that is 0 fails.
  meet_loop_seen :
      (outs : Bits) (n p : ℕ)
      → meet_loop cfg outs b v n p true true ≡ false
      → (q : ℕ) × (p ≤ q)
        × (q < p + n)
        × (block_has_predecessor cfg q b ≡ true)
        × (outs q v ≡ false)
  unfolding meet_loop
  meet_loop_seen outs zero p h = cc
  meet_loop_seen outs (suc n) p h = elim (Bool-cases (block_has_predecessor cfg p b)) [
    | inl e ↦ elim (Bool-cases (outs p v)) [
      | inr off ↦ (p, omega arith, omega arith, e, off)
      | inl on ↦
          let k = meet_loop_seen outs n (p + 1) (rw (e, on) at h) in
          (k.0, omega (arith, k.1), omega (arith, k.2), k.3, k.4)
    ]
    | inr e ↦
        let k = meet_loop_seen outs n (p + 1) (rw e at h) in
        (k.0, omega (arith, k.1), omega (arith, k.2), k.3, k.4)
  ]

  meet_loop-Fails :
      (outs : Bits) (n p : ℕ) → meet_loop cfg outs b v n p true false ≡ false → Fails outs n p
  unfolding meet_loop
  meet_loop-Fails outs zero p h = no_predecessor λ q lo hi. absurd (omega arith)
  meet_loop-Fails outs (suc n) p h = elim (Bool-cases (block_has_predecessor cfg p b)) [
    | inl e ↦ elim (Bool-cases (outs p v)) [
      | inr off ↦ from_predecessor p (omega arith) (omega arith) e off
      | inl on ↦
          let k = meet_loop_seen outs n (p + 1) (rw (e, on) at h) in
          from_predecessor k.0 (omega (arith, k.1)) (omega (arith, k.2)) k.3 k.4
    ]
    | inr e ↦ Fails-step outs n p e (meet_loop-Fails outs n (p + 1) (rw e at h))
  ]

  meet_loop_low :
      (outs : Bits) (n p : ℕ) (has : Bool) → meet_loop cfg outs b v n p false has ≡ false
  unfolding meet_loop
  meet_loop_low outs zero p has = refl
  meet_loop_low outs (suc n) p has = elim (Bool-cases (block_has_predecessor cfg p b)) [
    | inl e ↦ rw e (meet_loop_low outs n (p + 1) true)
    | inr e ↦ rw e (meet_loop_low outs n (p + 1) has)
  ]

  meet_loop_predecessor :
      (outs : Bits) (n p : ℕ) (value has : Bool) (q : ℕ)
      → p ≤ q
      → q < p + n
      → block_has_predecessor cfg q b ≡ true
      → outs q v ≡ false
      → meet_loop cfg outs b v n p value has ≡ false
  unfolding meet_loop
  meet_loop_predecessor outs zero p value has q lo hi e o = absurd (omega arith)
  meet_loop_predecessor outs (suc n) p value has q lo hi e o = elim (Bool-cases (q == p)) [
    | inl at ↦
        let same = (==_iff q p).0 at in
        let e' : block_has_predecessor cfg p b ≡ true =
          subst (λ i. block_has_predecessor cfg i b ≡ true) same e in
        let o' : outs p v ≡ false = subst (λ i. outs i v ≡ false) same o in
        let low : (value && outs p v) ≡ false = ground arith in
        rw (e', low) (meet_loop_low outs n (p + 1) true)
    | inr later ↦ meet_loop_predecessor outs n (p + 1) _ _ q (ground arith) (omega arith) e o
  ]

  meet_loop_none :
      (outs : Bits) (n p : ℕ) (value : Bool)
      → ((q : ℕ) → p ≤ q → q < p + n → block_has_predecessor cfg q b ≡ false)
      → meet_loop cfg outs b v n p value false ≡ false
  unfolding meet_loop
  meet_loop_none outs zero p value k = ground arith
  meet_loop_none outs (suc n) p value k =
      rw (k p (omega arith) (omega arith))
        (meet_loop_none outs n (p + 1) value (λ q lo hi. k q (omega arith) (omega arith)))

  pub meet-Fails : (outs : Bits) → meet cfg outs b v ≡ false → Fails outs (block_count cfg) 0
  unfolding meet
  meet-Fails outs h = meet_loop-Fails outs (block_count cfg) 0 h

  pub Fails-meet : (outs : Bits) → Fails outs (block_count cfg) 0 → meet cfg outs b v ≡ false
  unfolding meet
  Fails-meet outs (from_predecessor q lo hi e o) =
      meet_loop_predecessor outs (block_count cfg) 0 true false q lo hi e o
  Fails-meet outs (no_predecessor k) = meet_loop_none outs (block_count cfg) 0 true k

  Fails-mono :
      (m n : Bits)
      → ((i j : ℕ) → m i j ≡ false → n i j ≡ false)
      → Fails m (block_count cfg) 0
      → Fails n (block_count cfg) 0
  Fails-mono m n h (from_predecessor q lo hi e o) = from_predecessor q lo hi e (h q v o)
  Fails-mono m n h (no_predecessor k) = no_predecessor k

  -- Clearing more bits clears more meets.
  pub meet_mono :
      (m n : Bits)
      → ((i j : ℕ) → m i j ≡ false → n i j ≡ false)
      → meet cfg m b v ≡ false
      → meet cfg n b v ≡ false
  meet_mono m n h e = Fails-meet n (Fails-mono m n h (meet-Fails m e))
