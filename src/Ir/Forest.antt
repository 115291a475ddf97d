-- ===== src/Ir/Forest.antt =====
-- A program that `vnt_ir_validate` of src/compiler/ir.c accepts is a forest.
use vnt.Base.{
  ℕ, suc, ◌+◌, ◌-◌, ◌≤◌, ◌<◌, ◌≡◌, refl, ap, ◌∙◌, ◌≢◌, ◌⊎◌, inl, inr, true, false, some, List, [],
  ◌∷◌, arith, ltb, ◌==◌, ltb→lt, ==_iff, Bool-cases, length, count_below, count_below-mark,
  count_below_full, count_below_none,
}
use vnt.Ir.Node.{Node, blank_node, node-outside, Program, no_node, node, node_count}
use vnt.Ir.Validate.{Visited, visit, walk, vnt_ir_validate}
use vnt.Ir.Walk.{Walked, done, pop, Walked-Fresh, walk-Walked}
use vnt.Ir.Order.{Times, Seen, Stamped, Pushed-Stamped}

-- The links of a program lead downwards: each node has a rank above those of its first child and of
-- its next sibling. A finite tree has one, the size of what hangs below and behind a node.
pub record IsForest (ir : Program) : Type 0 where
  pub rank : ℕ → ℕ
  pub bound : (i : ℕ) → rank i ≤ node_count ir
  pub child : (i : ℕ) → (node ir i).first_child ≢ no_node → rank (node ir i).first_child < rank i
  pub sibling :
      (i : ℕ) → (node ir i).next_sibling ≢ no_node → rank (node ir i).next_sibling < rank i

module _ (ir : Program) where
  -- Of a walk so far: what is seen is stamped before `count`, and the links of a node lead to later
  -- stamps, those to children once it is visited.
  record Ordered (visited : Visited) (s : List ℕ) (time : Times) (count : ℕ) : Type 0 where
    early : (d : ℕ) → Seen visited s d → time d < count
    child :
        (d : ℕ)
        → visited d ≡ true
        → (node ir d).first_child ≢ no_node
        → Seen visited s (node ir d).first_child × (time d < time (node ir d).first_child)
    sibling :
        (d : ℕ)
        → Seen visited s d
        → (node ir d).next_sibling ≢ no_node
        → Seen visited s (node ir d).next_sibling × (time d < time (node ir d).next_sibling)

  -- One node popped and its children pushed.
  Ordered-pop :
      {visited : Visited} {c : ℕ} {s s' : List ℕ} {time time' : Times} {count count' : ℕ}
      → Ordered visited (c ∷ s) time count
      → Stamped ir (visit visited c) (node ir c).first_child s s' time count time' count'
      → Ordered (visit visited c) s' time' count'
  Ordered-pop {visited} {c} {s} {s'} {time} {time'} {count} {count'} o st =
      let mid : (d : ℕ) → Seen visited (c ∷ s) d → Seen (visit visited c) s d = λ d h. elim h [
        | inl on ↦ inl (ground arith)
        | inr m ↦ elim m [ inl e ↦ inl (ground arith) | inr m ↦ inr m ]
      ] in
      let old : (d : ℕ) → Seen visited (c ∷ s) d → time' d ≡ time d = λ d h. st.kept d (mid d h) in
      let new : (d : ℕ) → Seen visited (c ∷ s) d → Seen (visit visited c) s' d =
        λ d h. elim (mid d h) [ inl on ↦ inl on | inr m ↦ inr (st.stays d m) ] in
      let carried : (d e : ℕ)
          → Seen visited (c ∷ s) d
          → Seen visited (c ∷ s) e × (time d < time e)
          → Seen (visit visited c) s' e × (time' d < time' e) =
        λ d e h k. (new e k.0, omega (arith, old d h, old e k.0, k.1)) in
      let back : (d : ℕ) → (visit visited c) d ≡ true → (d ≡ c) ⊎ (visited d ≡ true) = λ d h.
        elim (Bool-cases (d == c)) [
          | inl at ↦ inl ((==_iff d c).0 at)
          | inr other ↦ inr (ground arith)
        ] in
      let here : Seen visited (c ∷ s) c = inr (inl refl) in
      record {
        early = st.early;
        child = λ d h ne. elim (back d h) [
          | inl e ↦
              let ne' : (node ir c).first_child ≢ no_node = rw e at ne in
              let k = st.head ne' in rw e (inr k.0, omega (arith, k.1, old c here, o.early c here))
          | inr on ↦ carried d _ (inl on) (o.child d on ne)
        ];
        sibling = λ d h ne. elim h [
          | inl on ↦ elim (back d on) [
            | inl e ↦
                let ne' : (node ir c).next_sibling ≢ no_node = rw e at ne in
                rw e (carried c _ here (o.sibling c here ne'))
            | inr on ↦ carried d _ (inl on) (o.sibling d (inl on) ne)
          ]
          | inr m ↦ elim (st.linked d m) [
            | inl m ↦ carried d _ (inr (inr m)) (o.sibling d (inr (inr m)) ne)
            | inr good ↦ let k = good ne in (inr k.0, k.1)
          ]
        ];
      }

  -- Where a walk ends: everything stamped in order, and as many nodes visited as are counted.
  Walked-Ordered :
      {visited : Visited} {s : List ℕ} {reached total : ℕ}
      → Walked ir visited s reached total
      → (time : Times) (count : ℕ) → Ordered visited s time count
      → count ≡ reached + length s
      → count_below visited (node_count ir) ≡ reached
      → (last : Visited) × (time' : Times) × Ordered last [] time' total
        × (count_below last (node_count ir) ≡ total)
  Walked-Ordered (done {visited} {total}) time count o e n =
      let same : count ≡ total = omega arith in (visited, time, rw (← same) o, n)
  Walked-Ordered (pop {visited} {current} {stack} {stack'} {reached} lt v p w) time count o e n =
      let mid : (d : ℕ) → Seen (visit visited current) stack d → time d < count = λ d h. elim h [
        | inl on ↦ elim (Bool-cases (d == current)) [
          | inl at ↦ let k = o.early current (inr (inl refl)) in rw ((==_iff d current).0 at) k
          | inr other ↦ o.early d (inl (ground arith))
        ]
        | inr m ↦ o.early d (inr (inr m))
      ] in
      let (time', count', st) = Pushed-Stamped ir p (Walked-Fresh ir w) time count mid in
      Walked-Ordered w time' count' (Ordered-pop o st) (omega (arith, st.counted))
        (count_below-mark visited current (node_count ir) lt v ∙ omega arith)

  module _ (root_last : (node ir ir.root).next_sibling ≡ no_node) where
    Ordered-start : Ordered (λ i. false) (ir.root ∷ []) (λ i. 0) 1
    Ordered-start = record {
      early = λ d h. omega arith;
      child = λ d h. cc;
      sibling = λ d h ne. elim h [
        | inl on ↦ cc
        | inr m ↦ elim m [ inl e ↦ absurd (ne (rw e root_last)) | inr m ↦ elim m [ ] ]
      ];
    }

    Walked-IsForest : Walked ir (λ i. false) (ir.root ∷ []) 0 (node_count ir) → IsForest ir
    Walked-IsForest w =
        let (last, time, o, full) =
          Walked-Ordered w (λ i. 0) 1 Ordered-start (omega arith)
            (count_below_none (node_count ir)) in
        let inside : (i : ℕ)
            → (node ir i).first_child ≢ no_node ⊎ (node ir i).next_sibling ≢ no_node
            → last i ≡ true =
          λ i h. count_below_full last (node_count ir) full i (linked-lt i h) in
        record {
          rank = λ i. node_count ir - time i;
          bound = λ i. omega arith;
          child = λ i ne.
              down i _ (o.early _ (inl (inside i (inl ne)))) (o.child i (inside i (inl ne)) ne)
                o.early;
          sibling = λ i ne.
              down i _ (o.early _ (inl (inside i (inr ne))))
                (o.sibling i (inl (inside i (inr ne))) ne) o.early;
        }
      where
        linked-lt :
            (i : ℕ)
            → (node ir i).first_child ≢ no_node ⊎ (node ir i).next_sibling ≢ no_node
            → i < node_count ir
        linked-lt i h = elim (Bool-cases (ltb i (node_count ir))) [
          | inl lt ↦ ltb→lt _ _ lt
          | inr out ↦
              let e : node ir i ≡ blank_node = node-outside ir i (ground arith) in
              elim h [
                | inl ne ↦ absurd (ne (ap (λ (n : Node). n.first_child) e))
                | inr ne ↦ absurd (ne (ap (λ (n : Node). n.next_sibling) e))
              ]
        ]

        down :
            {visited : Visited} {time : Times} (i j : ℕ)
            → time i < node_count ir
            → Seen visited [] j × (time i < time j)
            → ((d : ℕ) → Seen visited [] d → time d < node_count ir)
            → node_count ir - time j < node_count ir - time i
        down i j lt k early = let later = early j k.0 in omega (arith, k.1)

-- An accepted program is a forest: its links lead from each node to one of lower rank.
pub vnt_ir_validate-IsForest : (ir : Program) → vnt_ir_validate ir ≡ true → IsForest ir
unfolding vnt_ir_validate
vnt_ir_validate-IsForest ir h =
    let reached = walk ir (suc (suc (node_count ir))) (λ i. false) (ir.root ∷ []) 0 in
    let ends : (reached ≡ some (node_count ir)) × ((node ir ir.root).next_sibling ≡ no_node) =
      ground arith in
    Walked-IsForest ir ends.1 (walk-Walked ir _ _ _ _ _ ends.0)
