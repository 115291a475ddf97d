-- ===== src/Cfg/ByName.antt =====
-- Liveness and definite assignment by the names of variables and the statements of the blocks: the
-- specification of the analyses of src/compiler/cfg.c, and its agreement with the bit matrices.
use vnt.Base.{
  ℕ, zero, suc, ◌+◌, ◌≤◌, ◌<◌, ◌≡◌, refl, sym, subst, ◌≢◌, ◌↔◌, inl, inr, Bool, true, false, some,
  List, [], ◌∷◌, arith, Bool-cases, Option-cases, length, get_elem?, get_or,
}
use vnt.Ir.Node.{Name, Program, no_node, name_eq, name_eq_iff}
use vnt.Ir.Forest.{IsForest}
use vnt.Cfg.Graph.{Block, Cfg, block, block_count, blank_block, Edge, HasEdgesInside}
use vnt.Cfg.Bits.{Bits}
use vnt.Cfg.Variables.{collect_variables, variable_index, index_from, holds, variable_index-hit}
use vnt.Cfg.Collected.{Held, holds_iff, Mentioned, collect_variables-Distinct}
use vnt.Cfg.Effects.{Effects, collect_block_effects}
use vnt.Cfg.Analysis.{all_effects, uses_of, defs_of, no_effects}
use vnt.Cfg.Access.{BlockReads, BlockWrites}
use vnt.Cfg.EffectsExact.{Adds, collect_block_effects-Exact}
use vnt.Cfg.Liveness.Paths.{Live, LiveOut, read, onward}
use vnt.Cfg.Assigned.Paths.{Unassigned, at_entry, unreached, along}

module _ (ir : Program) (cfg : Cfg) where
  abbrev pub ReadsAt : ℕ → Name → Type 0
  ReadsAt b x = BlockReads ir (collect_variables ir) (block cfg b) x

  abbrev pub WritesAt : ℕ → Name → Type 0
  WritesAt b x = BlockWrites ir (collect_variables ir) (block cfg b) x

  -- From the start of the block a path leads to a block that reads the variable, and no block before
  -- that one on the path writes it.
  pub data LiveAt : ℕ → Name → Type 0 where
    read_here : {b : ℕ} {x : Name} → ReadsAt b x → LiveAt b x
    read_later : {b c : ℕ} {x : Name} → ¬ WritesAt b x → Edge cfg b c → LiveAt c x → LiveAt b x

  abbrev pub LiveBehind : ℕ → Name → Type 0
  LiveBehind b x = (c : ℕ) × Edge cfg b c × LiveAt c x

  -- A path to the start of the block leaves the variable unassigned. It begins at an entry whose
  -- seed lacks the variable, or at another block that no edge leads to, and goes on over blocks that do not write it
  -- to blocks that are no entries.
  pub data MissingAt (is_entry : ℕ → Bool) (seed : Bits) : ℕ → Name → Type 0 where
    from_entry :
        {b : ℕ} {x : Name}
        → is_entry b ≡ true
        → seed b (variable_index (collect_variables ir) (some x)) ≡ false
        → MissingAt is_entry seed b x
    from_unreached :
        {b : ℕ} {x : Name}
        → is_entry b ≡ false
        → ((p : ℕ) → p < block_count cfg → ¬ Edge cfg p b)
        → MissingAt is_entry seed b x
    past :
        {p b : ℕ} {x : Name}
        → is_entry b ≡ false
        → p < block_count cfg
        → Edge cfg p b
        → ¬ WritesAt p x
        → MissingAt is_entry seed p x
        → MissingAt is_entry seed b x

index_from-miss :
    (names : List Name) (y : Name) (i : ℕ) → ¬ Held y names → index_from names y i ≡ no_node
unfolding index_from
index_from-miss [] y i h = refl
index_from-miss (n ∷ names) y i h = elim (Bool-cases (name_eq n y)) [
  | inl e ↦ absurd (h (inl ((name_eq_iff n y).0 e)))
  | inr other ↦ rw other (index_from-miss names y (i + 1) (λ later. h (inr later)))
]

module _ (names : List Name) (fits : length names ≤ no_node) where
  -- Two names of one index, where one of them is in the set, are the same.
  variable_index_injective :
      (x y : Name)
      → Held x names
      → variable_index names (some y) ≡ variable_index names (some x)
      → y ≡ x
  unfolding variable_index
  variable_index_injective x y h e =
      let hx = variable_index-hit names x fits ((holds_iff names x).1 h) in
      elim (Bool-cases (holds names y)) [
        | inl held ↦
            let hy = variable_index-hit names y fits held in
            let at_y : get_elem? names (index_from names x 0) ≡ some y =
              subst (λ i. get_elem? names i ≡ some y) e hy.1 in
            cc (hx.1, at_y)
        | inr lost ↦
            let gone = index_from-miss names y 0 (λ k. let z = (holds_iff names y).1 k in cc) in
            absurd (omega (arith, gone, hx.0, e))
      ]

all_effects-row :
    (ir : Program) (names : List Name) (bs : List Block) (es : List Effects) (b : ℕ)
    → all_effects ir names bs ≡ some es
    → b < length bs
    → collect_block_effects ir names (get_or bs b blank_block) ≡ some (get_or es b no_effects)
unfolding all_effects
all_effects-row ir names [] es b h lt = absurd (omega arith)
all_effects-row ir names (k ∷ bs) es b h lt =
    elim (Option-cases (collect_block_effects ir names k)) [
      | inl e ↦ let z = rw (all_effects, e) at h in absurd cc
      | inr (row, e) ↦ elim (Option-cases (all_effects ir names bs)) [
        | inl e2 ↦ let z = rw (all_effects, e, e2) at h in absurd cc
        | inr (rows, e2) ↦
            let z : some (row ∷ rows) ≡ some es = rw (all_effects, e, e2) at h in
            let same : row ∷ rows ≡ es = cc in
            subst
              (λ xs.
                collect_block_effects ir names (get_or (k ∷ bs) b blank_block)
                ≡ some (get_or xs b no_effects))
              same (go b lt row rows e (λ j lj. all_effects-row ir names bs rows j e2 lj))
      ]
    ]
  where
    go :
        (b : ℕ)
        → b < length (k ∷ bs)
        → (row : Effects) (rows : List Effects) → collect_block_effects ir names k ≡ some row
        → ((j : ℕ)
            → j < length bs
            → collect_block_effects ir names (get_or bs j blank_block)
              ≡ some (get_or rows j no_effects))
        → collect_block_effects ir names (get_or (k ∷ bs) b blank_block)
          ≡ some (get_or (row ∷ rows) b no_effects)
    go zero lt row rows e rest = e
    go (suc j) lt row rows e rest = rest j (omega arith)

module _ (ir : Program) (cfg : Cfg) (t : IsForest ir)
    (fits : length (collect_variables ir) ≤ no_node) (es : List Effects)
    (made : all_effects ir (collect_variables ir) cfg.blocks ≡ some es) where
  abbrev index_of : Name → ℕ
  index_of x = variable_index (collect_variables ir) (some x)

  row-Adds :
      (b : ℕ)
      → b < block_count cfg
      → Adds ir
          (collect_variables ir)
          t
          (ReadsAt ir cfg b)
          (WritesAt ir cfg b)
          no_effects
          (get_or es b no_effects)
  unfolding block
  row-Adds b lt =
      collect_block_effects-Exact ir (collect_variables ir) t (block cfg b) _
        (all_effects-row ir (collect_variables ir) cfg.blocks es b made lt)

  index-ne : (x : Name) → Held x (collect_variables ir) → index_of x ≢ no_node
  index-ne x h e =
      let hit =
        variable_index-hit (collect_variables ir) x fits
          ((holds_iff (collect_variables ir) x).1 h) in
      absurd (omega (arith, hit.0))

  pub uses_iff :
      (b : ℕ) (x : Name)
      → b < block_count cfg
      → Held x (collect_variables ir)
      → (uses_of es b (index_of x) ≡ true) ↔ ReadsAt ir cfg b x
  uses_iff b x lt h =
      let m = (row-Adds b lt).uses in
      (
        λ on. elim (m.origin (index_of x) on) [
          | inl before ↦ absurd cc
          | inr (y, r, e) ↦
              subst (ReadsAt ir cfg b)
                (variable_index_injective (collect_variables ir) fits x y h e) r
        ],
        λ r. m.marked x r (index-ne x h),
      )

  pub defs_iff :
      (b : ℕ) (x : Name)
      → b < block_count cfg
      → Held x (collect_variables ir)
      → (defs_of es b (index_of x) ≡ true) ↔ WritesAt ir cfg b x
  defs_iff b x lt h =
      let m = (row-Adds b lt).defs in
      (
        λ on. elim (m.origin (index_of x) on) [
          | inl before ↦ absurd cc
          | inr (y, r, e) ↦
              subst (WritesAt ir cfg b)
                (variable_index_injective (collect_variables ir) fits x y h e) r
        ],
        λ r. m.marked x r (index-ne x h),
      )

  module _ (edges : HasEdgesInside cfg) where
    Live-LiveAt :
        {b v : ℕ} (x : Name)
        → b < block_count cfg
        → Held x (collect_variables ir)
        → index_of x ≡ v
        → Live cfg (uses_of es) (defs_of es) b v
        → LiveAt ir cfg b x
    Live-LiveAt {b} x lt h e (read on) =
        read_here ((uses_iff b x lt h).0 (subst (λ w. uses_of es b w ≡ true) (sym e) on))
    Live-LiveAt {b} x lt h e (onward {c} off edge live) =
        read_later
          (λ w. let on = subst (λ v. defs_of es b v ≡ true) e ((defs_iff b x lt h).1 w) in cc) edge
          (Live-LiveAt x (edges.inside b c lt edge) h e live)

    LiveAt-Live :
        {b : ℕ} (x : Name)
        → b < block_count cfg
        → Held x (collect_variables ir)
        → LiveAt ir cfg b x
        → Live cfg (uses_of es) (defs_of es) b (index_of x)
    LiveAt-Live {b} x lt h (read_here r) = read ((uses_iff b x lt h).1 r)
    LiveAt-Live {b} x lt h (read_later {c} dry edge live) =
        onward
          (elim (Bool-cases (defs_of es b (index_of x))) [
            | inl on ↦ absurd (dry ((defs_iff b x lt h).0 on))
            | inr off ↦ off
          ])
          edge (LiveAt-Live x (edges.inside b c lt edge) h live)

    pub Live-iff :
        (b : ℕ) (x : Name)
        → b < block_count cfg
        → Held x (collect_variables ir)
        → Live cfg (uses_of es) (defs_of es) b (index_of x) ↔ LiveAt ir cfg b x
    Live-iff b x lt h = (Live-LiveAt x lt h refl, LiveAt-Live x lt h)

    pub LiveOut-iff :
        (b : ℕ) (x : Name)
        → b < block_count cfg
        → Held x (collect_variables ir)
        → LiveOut cfg (uses_of es) (defs_of es) b (index_of x) ↔ LiveBehind ir cfg b x
    LiveOut-iff b x lt h = (
      λ l. (l.0, l.1, Live-LiveAt x (edges.inside b l.0 lt l.1) h refl l.2),
      λ l. (l.0, l.1, LiveAt-Live x (edges.inside b l.0 lt l.1) h l.2),
    )

  module _ (is_entry : ℕ → Bool) (seed : Bits) where
    Unassigned-MissingAt :
        {b v : ℕ} (x : Name)
        → Held x (collect_variables ir)
        → index_of x ≡ v
        → Unassigned cfg is_entry seed (defs_of es) b v
        → MissingAt ir cfg is_entry seed b x
    Unassigned-MissingAt {b} x h e (at_entry on off) =
        from_entry on (subst (λ v. seed b v ≡ false) (sym e) off)
    Unassigned-MissingAt x h e (unreached off no_edge) = from_unreached off no_edge
    Unassigned-MissingAt x h e (along {p} off lt edge dry m) =
        past off lt edge
          (λ w. let on = subst (λ v. defs_of es p v ≡ true) e ((defs_iff p x lt h).1 w) in cc)
          (Unassigned-MissingAt x h e m)

    MissingAt-Unassigned :
        {b : ℕ} (x : Name)
        → Held x (collect_variables ir)
        → MissingAt ir cfg is_entry seed b x
        → Unassigned cfg is_entry seed (defs_of es) b (index_of x)
    MissingAt-Unassigned x h (from_entry on off) = at_entry on off
    MissingAt-Unassigned x h (from_unreached off no_edge) = unreached off no_edge
    MissingAt-Unassigned x h (past {p} off lt edge dry m) =
        along off lt edge
          (elim (Bool-cases (defs_of es p (index_of x))) [
            | inl on ↦ absurd (dry ((defs_iff p x lt h).0 on))
            | inr fresh ↦ fresh
          ])
          (MissingAt-Unassigned x h m)

    -- No cell that is read is missing, exactly where no variable that a block reads is.
    pub missing_iff :
        ((b v : ℕ)
          → b < block_count cfg
          → v < length (collect_variables ir)
          → uses_of es b v ≡ true
          → ¬ Unassigned cfg is_entry seed (defs_of es) b v)
        ↔ ((b : ℕ) (x : Name)
            → b < block_count cfg
            → Mentioned x ir.nodes
            → ReadsAt ir cfg b x
            → ¬ MissingAt ir cfg is_entry seed b x)
    missing_iff = (
      λ f b x lt men r m.
          let h = ((collect_variables-Distinct ir).1 x).1 men in
          let hit =
            variable_index-hit (collect_variables ir) x fits
              ((holds_iff (collect_variables ir) x).1 h) in
          f b (index_of x) lt hit.0 ((uses_iff b x lt h).1 r) (MissingAt-Unassigned x h m),
      λ f b v lt lv on m. elim ((row-Adds b lt).uses.origin v on) [
        | inl before ↦ absurd cc
        | inr (x, r, e) ↦
            let h : Held x (collect_variables ir) =
              elim (Bool-cases (holds (collect_variables ir) x)) [
                | inl held ↦ (holds_iff (collect_variables ir) x).0 held
                | inr lost ↦
                    let gone : index_of x ≡ no_node =
                      unfold variable_index in
                      index_from-miss (collect_variables ir) x 0
                        (λ k. let z = (holds_iff (collect_variables ir) x).1 k in cc) in
                    absurd (omega (arith, gone, e))
              ] in
            f b x lt (((collect_variables-Distinct ir).1 x).0 h) r (Unassigned-MissingAt x h e m)
      ],
    )
