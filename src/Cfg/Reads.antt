-- ===== src/Cfg/Reads.antt =====
-- The walk of src/compiler/cfg.c over an expression always ends within its fuel, and marks exactly the
-- variables of the expression.
use vnt.Base.{
  ℕ, zero, suc, ◌+◌, ◌*◌, ◌<◌, ◌≡◌, refl, sym, ◌∙◌, subst, ◌≢◌, ◌⊎◌, inl, inr, true, false, ◌||◌,
  Option, none, some, List, arith, leb, ◌==◌, ==_iff, Bool-cases,
}
use vnt.Ir.Node.{Name, Program, no_node, node, node_count, text_of}
use vnt.Ir.Forest.{IsForest}
use vnt.Cfg.Variables.{variable_index}
use vnt.Cfg.Effects.{
  Row, mark_variable, is_variable, reads_node, reads_chain, walk_fuel, collect_expression_reads,
}

module _ (ir : Program) (names : List Name) where
  -- A variable below a node, or in a chain of siblings.
  mutual
    pub data Occurs : ℕ → Name → Type 0 where
      itself :
          {n : ℕ} {x : Name}
          → n < node_count ir
          → n ≢ no_node
          → is_variable (node ir n).opcode ≡ true
          → text_of (node ir n) ≡ some x
          → Occurs n x
      below :
          {n : ℕ} {x : Name}
          → n < node_count ir
          → n ≢ no_node
          → is_variable (node ir n).opcode ≡ false
          → Among (node ir n).first_child x
          → Occurs n x

    pub data Among : ℕ → Name → Type 0 where
      first : {c : ℕ} {x : Name} → c ≢ no_node → Occurs c x → Among c x
      later : {c : ℕ} {x : Name} → c ≢ no_node → Among (node ir c).next_sibling x → Among c x

  -- The walk over what `O` names has marked their indices, and nothing else.
  pub record Marks (O : Name → Type 0) (uses u : Row) : Type 0 where
    pub kept : (v : ℕ) → uses v ≡ true → u v ≡ true
    pub marked :
        (x : Name)
        → O x
        → variable_index names (some x) ≢ no_node
        → u (variable_index names (some x)) ≡ true
    pub origin :
        (v : ℕ)
        → u v ≡ true
        → (uses v ≡ true) ⊎ ((x : Name) × O x × (variable_index names (some x) ≡ v))

  abbrev pub Reads : (Name → Type 0) → Row → Option Row → Type 0
  Reads O uses o = (u : Row) × (o ≡ some u) × Marks O uses u

  pub Marks-nothing : (O : Name → Type 0) (uses : Row) → ((x : Name) → ¬ O x) → Marks O uses uses
  Marks-nothing O uses no_x = record {
    kept = λ v h. h;
    marked = λ x o ne. absurd (no_x x o);
    origin = λ v h. inl h;
  }

  pub Marks-map :
      (O P : Name → Type 0) (uses u : Row)
      → ((x : Name) → O x → P x)
      → ((x : Name) → P x → O x)
      → Marks O uses u
      → Marks P uses u
  Marks-map O P uses u to from m = record {
    kept = m.kept;
    marked = λ x p ne. m.marked x (from x p) ne;
    origin = λ v h. elim (m.origin v h) [
      | inl old ↦ inl old
      | inr new ↦ inr (new.0, to new.0 new.1, new.2)
    ];
  }

  pub Marks-variable :
      (uses : Row) (o : Option Name) → Marks (λ x. o ≡ some x) uses (mark_variable uses names o)
  unfolding mark_variable variable_index
  Marks-variable uses none = record {
    kept = λ v h. ground (arith, h);
    marked = λ x e ne. cc;
    origin = λ v h. inl (ground arith);
  }
  Marks-variable uses (some y) = record {
    kept = λ v h. ground (arith, h);
    marked = λ x e ne. marked_at x e ne;
    origin = λ v h. origin_at v h;
  }
    where
      marked_at :
          (x : Name)
          → some y ≡ some x
          → variable_index names (some x) ≢ no_node
          → mark_variable uses names (some y) (variable_index names (some x)) ≡ true
      marked_at x e ne =
          let same : y ≡ x = cc in
          subst (λ z. mark_variable uses names (some z) (variable_index names (some x)) ≡ true)
            (sym same) (ground arith)

      origin_at :
          (v : ℕ)
          → mark_variable uses names (some y) v ≡ true
          → (uses v ≡ true) ⊎ ((x : Name) × (some y ≡ some x) × (variable_index names (some x) ≡ v))
      origin_at v h = elim (Bool-cases (v == variable_index names (some y))) [
        | inl at ↦ inr (y, refl, sym ((==_iff _ _).0 at))
        | inr other ↦ inl (ground arith)
      ]

  Marks-chain :
      (c : ℕ) (uses k s : Row)
      → c ≢ no_node
      → Marks (Occurs c) uses k
      → Marks (Among (node ir c).next_sibling) k s
      → Marks (Among c) uses s
  Marks-chain c uses k s ne m n = record {
    kept = λ v h. n.kept v (m.kept v h);
    marked = λ x a known. marked_in x a known;
    origin = λ v h. elim (n.origin v h) [
      | inr new ↦ inr (new.0, later ne new.1, new.2)
      | inl before ↦ elim (m.origin v before) [
        | inl old ↦ inl old
        | inr new ↦ inr (new.0, first ne new.1, new.2)
      ]
    ];
  }
    where
      marked_in :
          (x : Name)
          → Among c x
          → variable_index names (some x) ≢ no_node
          → s (variable_index names (some x)) ≡ true
      marked_in x (first _ o) known = n.kept _ (m.marked x o known)
      marked_in x (later _ a) known = n.marked x a known

  reads_step_other :
      (fuel n : ℕ) (uses : Row)
      → (n == no_node || leb (node_count ir) n) ≡ false
      → is_variable (node ir n).opcode ≡ false
      → reads_node ir names (suc fuel) n uses
        ≡ reads_chain ir names fuel (node ir n).first_child uses
  unfolding reads_node
  reads_step_other fuel n uses inside other = rw (inside, reads_node) (rw other)

  reads_chain_step :
      (fuel c : ℕ) (uses u : Row)
      → (c == no_node) ≡ false
      → reads_node ir names fuel c uses ≡ some u
      → reads_chain ir names (suc fuel) c uses
        ≡ reads_chain ir names fuel (node ir c).next_sibling u
  unfolding reads_chain
  reads_chain_step fuel c uses u on e = rw (on, reads_chain) (rw e)

  not-Occurs-outside :
      (n : ℕ) → (n == no_node || leb (node_count ir) n) ≡ true → (x : Name) → ¬ Occurs n x
  not-Occurs-outside n out x (itself lt ne v e) = ground arith
  not-Occurs-outside n out x (below lt ne v a) = ground arith

  not-Among-end : (c : ℕ) → (c == no_node) ≡ true → (x : Name) → ¬ Among c x
  not-Among-end c end x (first ne o) = ne ((==_iff c no_node).0 end)
  not-Among-end c end x (later ne a) = ne ((==_iff c no_node).0 end)

  Occurs-text :
      (n : ℕ)
      → is_variable (node ir n).opcode ≡ true
      → (x : Name) → Occurs n x
      → text_of (node ir n) ≡ some x
  Occurs-text n var x (itself lt ne v e) = e
  Occurs-text n var x (below lt ne v a) = cc

  Occurs-Among :
      (n : ℕ)
      → is_variable (node ir n).opcode ≡ false
      → (x : Name) → Occurs n x
      → Among (node ir n).first_child x
  Occurs-Among n other x (itself lt ne v e) = cc
  Occurs-Among n other x (below lt ne v a) = a

  mutual
    unfolding reads_node

    reads_node-Reads :
        (t : IsForest ir) (fuel n : ℕ) (uses : Row)
        → 2 * t.rank n + 1 < fuel
        → Reads (Occurs n) uses (reads_node ir names fuel n uses)
    reads_node-Reads t zero n uses h = absurd (omega arith)
    reads_node-Reads t (suc fuel) n uses h =
        elim (Bool-cases (n == no_node || leb (node_count ir) n)) [
          | inl out ↦ (uses, rw (out, reads_node), Marks-nothing _ uses (not-Occurs-outside n out))
          | inr inside ↦
              let lt : n < node_count ir = ground arith in
              let ne : n ≢ no_node = ground arith in
              elim (Bool-cases (is_variable (node ir n).opcode)) [
                | inl var ↦ (
                  mark_variable uses names (text_of (node ir n)),
                  rw (inside, var, reads_node),
                  Marks-map _ (Occurs n) uses _ (λ x e. itself lt ne var e) (Occurs-text n var)
                      (Marks-variable uses (text_of (node ir n))),
                )
                | inr other ↦
                    let k =
                      reads_chain-Reads t fuel (node ir n).first_child uses
                        (λ more. let d = t.child n more in omega arith) (omega arith) in
                    (
                      k.0,
                      reads_step_other fuel n uses inside other ∙ k.1,
                      Marks-map _ (Occurs n) uses k.0 (λ x a. below lt ne other a)
                          (Occurs-Among n other) k.2,
                    )
              ]
        ]

    reads_chain-Reads :
        (t : IsForest ir) (fuel c : ℕ) (uses : Row)
        → (c ≢ no_node → 2 * t.rank c + 2 < fuel)
        → 0 < fuel
        → Reads (Among c) uses (reads_chain ir names fuel c uses)
    reads_chain-Reads t zero c uses h pos = absurd (omega arith)
    reads_chain-Reads t (suc fuel) c uses h pos = elim (Bool-cases (c == no_node)) [
      | inl end ↦ (uses, rw (end, reads_chain), Marks-nothing _ uses (not-Among-end c end))
      | inr on ↦
          let ne : c ≢ no_node = ground arith in
          let enough = h ne in
          let k = reads_node-Reads t fuel c uses (omega arith) in
          let s =
            reads_chain-Reads t fuel (node ir c).next_sibling k.0
              (λ more. let d = t.sibling c more in omega arith) (omega arith) in
          (
            s.0,
            reads_chain_step fuel c uses k.0 on k.1 ∙ s.1,
            Marks-chain c uses k.0 s.0 ne k.2 s.2,
          )
    ]

  -- In a program whose links lead downwards, the walk over an expression ends, keeps the marks, and
  -- adds those of exactly the variables that occur in the expression and are in the set.
  pub collect_expression_reads-Reads :
      (t : IsForest ir) (n : ℕ) (uses : Row)
      → Reads (Occurs n) uses (collect_expression_reads ir names n uses)
  unfolding collect_expression_reads
  collect_expression_reads-Reads t n uses =
      reads_node-Reads t (walk_fuel ir) n uses (omega (arith, t.bound n))
