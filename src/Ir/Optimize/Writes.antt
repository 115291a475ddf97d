-- ===== src/Ir/Optimize/Writes.antt =====
-- What the writes of the optimizer in src/compiler/ir.c leave of a program.
use vnt.Base.{
  ℕ, ◌<◌, ◌≡◌, refl, ap, ◌∙◌, ◌≢◌, ◌⊎◌, inl, inr, none, some, arith, leb, ◌==◌, ==_iff, Bool-cases,
  if_false, get_or-set_same, get_or-set_other, length-set,
}
use vnt.Ir.Node.{Node, Program, node, node_count, blank_node}
use vnt.Ir.Optimize.Values.{
  HirConstant, of_integer, of_boolean, of_float, hir_constant, literal, integer_of, floating_of,
  truth_of,
}
use vnt.Ir.Optimize.Fold.{write, folded_node}

pub node-write_same :
    (ir : Program) (i : ℕ) (n : Node) → i < node_count ir → node (write ir i n) i ≡ n
unfolding node
node-write_same ir i n h = get_or-set_same ir.nodes i n blank_node h

pub node-write_other :
    (ir : Program) (i j : ℕ) (n : Node) → j ≢ i → node (write ir i n) j ≡ node ir j
unfolding node
node-write_other ir i j n h = get_or-set_other ir.nodes i j n blank_node h

pub node_count-write : (ir : Program) (i : ℕ) (n : Node) → node_count (write ir i n) ≡ node_count ir
node_count-write ir i n = length-set ir.nodes i n

pub literal-folded_node : (n : Node) (v : HirConstant) → literal (folded_node n v) ≡ some v
unfolding literal folded_node integer_of floating_of truth_of
literal-folded_node n (of_integer z) = refl
literal-folded_node n (of_boolean b) = refl
literal-folded_node n (of_float w) = refl

-- A node may be replaced by a literal, with the links to it and behind it kept.
pub record Kept (ir ir' : Program) : Type 0 where
  pub size : node_count ir' ≡ node_count ir
  pub next : (j : ℕ) → (node ir' j).next_sibling ≡ (node ir j).next_sibling
  pub role : (j : ℕ) → (node ir' j).role ≡ (node ir j).role
  pub moved :
      (j : ℕ)
      → (node ir' j ≡ node ir j) ⊎ ((v : HirConstant) × (node ir' j ≡ folded_node (node ir j) v))

pub Kept-refl : (ir : Program) → Kept ir ir
Kept-refl ir = record { size = refl; next = λ j. refl; role = λ j. refl; moved = λ j. inl refl }

folded_twice : (n : Node) (v w : HirConstant) → folded_node (folded_node n v) w ≡ folded_node n w
unfolding folded_node
folded_twice n v w = refl

pub Kept-trans : {a b c : Program} → Kept a b → Kept b c → Kept a c
Kept-trans {a} {b} {c} h k = record {
  size = k.size ∙ h.size;
  next = λ j. k.next j ∙ h.next j;
  role = λ j. k.role j ∙ h.role j;
  moved = λ j. elim (k.moved j) [
    | inr (w, e) ↦ elim (h.moved j) [
      | inl s ↦ inr (w, e ∙ ap (λ n. folded_node n w) s)
      | inr (v, s) ↦ inr (w, e ∙ (ap (λ n. folded_node n w) s ∙ folded_twice (node a j) v w))
    ]
    | inl e ↦ elim (h.moved j) [ inl s ↦ inl (e ∙ s) | inr (v, s) ↦ inr (v, e ∙ s) ]
  ];
}

module _ (ir : Program) (i : ℕ) (v : HirConstant) (h : i < node_count ir) where
  pub node-write_folded :
      (j : ℕ)
      → ((j ≡ i) × (node (write ir i (folded_node (node ir i) v)) j ≡ folded_node (node ir j) v))
        ⊎ ((j ≢ i) × (node (write ir i (folded_node (node ir i) v)) j ≡ node ir j))
  node-write_folded j = elim (Bool-cases (j == i)) [
    | inl at ↦
        let e : j ≡ i = (==_iff j i).0 at in
        inl (e, rw (e, node-write_same ir i (folded_node (node ir i) v) h))
    | inr other ↦
        let ne : j ≢ i = ground arith in
        inr (ne, node-write_other ir i j (folded_node (node ir i) v) ne)
  ]

  kept_field {ℓ} :
      {A : Type ℓ} (f : Node → A) (j : ℕ)
      → ((n : Node) → f (folded_node n v) ≡ f n)
      → f (node (write ir i (folded_node (node ir i) v)) j) ≡ f (node ir j)
  kept_field f j same = elim (node-write_folded j) [
    | inl (e, s) ↦ ap f s ∙ same (node ir j)
    | inr (ne, s) ↦ ap f s
  ]

  pub Kept-write : Kept ir (write ir i (folded_node (node ir i) v))
  unfolding folded_node
  Kept-write = record {
    size = node_count-write ir i (folded_node (node ir i) v);
    next = λ j. kept_field (λ n. n.next_sibling) j (λ n. refl);
    role = λ j. kept_field (λ n. n.role) j (λ n. refl);
    moved = λ j. elim (node-write_folded j) [ inl (e, s) ↦ inr (v, s) | inr (ne, s) ↦ inl s ];
  }

  pub hir_constant-write_same :
      (j : ℕ) → j ≡ i → hir_constant (write ir i (folded_node (node ir i) v)) j ≡ some v
  unfolding hir_constant
  hir_constant-write_same j e = rw (
    e,
    node_count-write ir i (folded_node (node ir i) v),
    node-write_same ir i (folded_node (node ir i) v) h,
    literal-folded_node (node ir i) v,
    if_false (leb (node_count ir) i) none (some v) (ground arith),
  )

  pub hir_constant-write_other :
      (j : ℕ) → j ≢ i → hir_constant (write ir i (folded_node (node ir i) v)) j ≡ hir_constant ir j
  unfolding hir_constant
  hir_constant-write_other j ne = rw (
    node_count-write ir i (folded_node (node ir i) v),
    node-write_other ir i j (folded_node (node ir i) v) ne,
  )
