-- ===== src/Ir/Optimize/FoldWalk.antt =====
-- The walk of hir_fold_node in src/compiler/ir.c over a forest.
use vnt.Base.{
  ℕ, zero, suc, ◌+◌, ◌*◌, ◌≤◌, ◌<◌, ◌≡◌, refl, sym, ap, ◌∙◌, subst, ◌≢◌, inl, inr, true, false,
  some, arith, ◌==◌, if◌then◌else◌, Bool-cases, if_rule,
}
use vnt.Ir.Node.{EdgeRole, Program, no_node, node, node_count, same_role, same_role-eq}
use vnt.Ir.Validate.{vnt_ir_validate}
use vnt.Ir.Forest.{IsForest, vnt_ir_validate-IsForest}
use vnt.Ir.Optimize.Values.{Floats}
use vnt.Ir.Optimize.Fold.{folded_node, Changed, fold_operation, hir_fold_node, fold_children}
use vnt.Ir.Optimize.Writes.{Kept, Kept-refl, Kept-trans}
use vnt.Ir.Optimize.Meaning.{OnChain, here, behind}
use vnt.Ir.Optimize.Keeps.{OnChain-Kept_back, unmoved_binary}
use vnt.Ir.Optimize.Folded.{Sound, Sound-refl, Sound-trans, Found, fold_operation-Sound}

OnChain-next :
    {ir : Program} {a c : ℕ}
    → OnChain ir a c
    → (node ir c).next_sibling ≢ no_node
    → OnChain ir a (node ir c).next_sibling
OnChain-next (here ne) h = behind ne (here h)
OnChain-next (behind ne t) h = behind ne (OnChain-next t h)

first_child_folded :
    {ir ir' : Program}
    → Kept ir ir'
    → (i : ℕ) → (node ir' i).first_child ≢ no_node
    → (node ir' i).first_child ≡ (node ir i).first_child
unfolding folded_node
first_child_folded k i ne = elim (k.moved i) [
  | inl e ↦ ap (λ n. n.first_child) e
  | inr (v, e) ↦ absurd (ne (ap (λ n. n.first_child) e))
]

module _ (floats : Floats) where
  Found-Kept :
      {ir ir' : Program} (first : ℕ) (role : EdgeRole) (c : ℕ)
      → Kept ir ir'
      → Found floats ir first role c
      → Found floats ir' first role c
  Found-Kept first role c k f ne = let p = f ne in (OnChain-Kept_back k p.0, k.role c ∙ p.1)

  -- One more child seen, where the test of its role picks it.
  Found-step :
      (ir : Program) (first : ℕ) (role : EdgeRole) (c old : ℕ)
      → OnChain ir first c
      → Found floats ir first role old
      → Found floats ir first role (if same_role (node ir c).role role then c else old)
  Found-step ir first role c old on f =
      if_rule (λ x. Found floats ir first role x) (same_role (node ir c).role role)
        (λ h ne. (on, same_role-eq _ role h)) (λ h. f)

  ends_at :
      (fuel c l r : ℕ) (s : Changed)
      → (c == no_node) ≡ true
      → fold_children floats (suc fuel) c l r s ≡ some (s, l, r)
  unfolding hir_fold_node
  ends_at fuel c l r s end = rw (fold_children, end) refl

  -- A walk from a node ends with a program that is sound to the one it starts from.
  abbrev NodeEnds : ℕ → ℕ → Changed → Type 1
  NodeEnds fuel i s =
      (s' : Changed) × (hir_fold_node floats fuel i s ≡ some s') × Sound floats s.0 s'.0

  -- So does one from the child `c` on, and finds operands among the children.
  abbrev ChildrenEnd : ℕ → ℕ → ℕ → ℕ → ℕ → Changed → Type 1
  ChildrenEnd fuel first c l r s =
      (s' : Changed) × (l' : ℕ) × (r' : ℕ) × (fold_children floats fuel c l r s ≡ some (s', l', r'))
      × Sound floats s.0 s'.0
      × Found floats s'.0 first EdgeRole.left l'
      × Found floats s'.0 first EdgeRole.right r'

  node_step :
      (fuel i : ℕ) (s : Changed)
      → ChildrenEnd fuel (node s.0 i).first_child (node s.0 i).first_child no_node no_node s
      → NodeEnds (suc fuel) i s
  unfolding hir_fold_node
  node_step fuel i s (s', l, r, e, sound, fl, fr) = (
    fold_operation floats s' i l r,
    rw (hir_fold_node, e) refl,
    Sound-trans floats sound (
        fold_operation-Sound floats s' i l r (λ op.
          let same = ap (λ n. n.first_child) (unmoved_binary i sound.kept op) in
          (
            subst (λ x. Found floats s'.0 x EdgeRole.left l) (sym same) fl,
            subst (λ x. Found floats s'.0 x EdgeRole.right r) (sym same) fr,
          ))),
  )

  abbrev left_of : Changed → ℕ → ℕ → ℕ
  left_of s c left = if same_role (node s.0 c).role EdgeRole.left then c else left

  abbrev right_of : Changed → ℕ → ℕ → ℕ
  right_of s c right =
      if same_role (node s.0 c).role EdgeRole.left
      then right
      else if same_role (node s.0 c).role EdgeRole.right
      then c
      else right

  child_step :
      (fuel first c l r : ℕ) (s s1 : Changed)
      → (c == no_node) ≡ false
      → hir_fold_node floats fuel c s ≡ some s1
      → Sound floats s.0 s1.0
      → ChildrenEnd fuel first (node s1.0 c).next_sibling (left_of s c l) (right_of s c r) s1
      → ChildrenEnd (suc fuel) first c l r s
  unfolding hir_fold_node
  child_step fuel first c l r s s1 more e sound (s', l', r', e', sound', fl, fr) =
      (s', l', r', rw (fold_children, more, e) e', Sound-trans floats sound sound', fl, fr)

  module _ (ir : Program) (t : IsForest ir) where
    below_first :
        (cur : Program) (fuel i : ℕ)
        → Kept ir cur
        → 2 * t.rank i + 2 ≤ suc fuel
        → (node cur i).first_child ≢ no_node
        → 2 * t.rank (node cur i).first_child + 3 ≤ fuel
    below_first cur fuel i k h ne =
        let same = first_child_folded k i ne in
        let below = t.child i (λ z. ne (same ∙ z)) in
        let below' = subst (λ x. t.rank x < t.rank i) (sym same) below in omega (arith, below')

    below_next :
        (cur : Program) (fuel c : ℕ)
        → Kept ir cur
        → 2 * t.rank c + 3 ≤ suc fuel
        → (node cur c).next_sibling ≢ no_node
        → 2 * t.rank (node cur c).next_sibling + 3 ≤ fuel
    below_next cur fuel c k h ne =
        let same = k.next c in
        let below = t.sibling c (λ z. ne (same ∙ z)) in
        let below' = subst (λ x. t.rank x < t.rank c) (sym same) below in omega (arith, below')

    mutual
      hir_fold_node-Sound :
          (fuel i : ℕ) (s : Changed) → Kept ir s.0 → 2 * t.rank i + 2 ≤ fuel → NodeEnds fuel i s
      hir_fold_node-Sound zero i s k h = absurd (omega arith)
      hir_fold_node-Sound (suc fuel) i s k h = node_step fuel i s (
          fold_children-Sound fuel (node s.0 i).first_child (node s.0 i).first_child no_node no_node
            s k (omega arith) (below_first s.0 fuel i k h) (λ ne. here ne) (λ ne. absurd (ne refl))
            (λ ne. absurd (ne refl)))

      fold_children-Sound :
          (fuel first c l r : ℕ) (s : Changed)
          → Kept ir s.0
          → 0 < fuel
          → (c ≢ no_node → 2 * t.rank c + 3 ≤ fuel)
          → (c ≢ no_node → OnChain s.0 first c)
          → Found floats s.0 first EdgeRole.left l
          → Found floats s.0 first EdgeRole.right r
          → ChildrenEnd fuel first c l r s
      fold_children-Sound zero first c l r s k pos h on fl fr = absurd (omega arith)
      fold_children-Sound (suc fuel) first c l r s k pos h on fl fr =
          elim (Bool-cases (c == no_node)) [
            | inl end ↦ (s, l, r, ends_at fuel c l r s end, Sound-refl floats s.0, fl, fr)
            | inr more ↦
                let ne : c ≢ no_node = ground arith in
                let enough = h ne in
                let (s1, e, sound) = hir_fold_node-Sound fuel c s k (omega arith) in
                let k1 = Kept-trans k sound.kept in
                child_step fuel first c l r s s1 more e sound (
                  fold_children-Sound fuel first (node s1.0 c).next_sibling (left_of s c l)
                    (right_of s c r) s1 k1 (omega arith) (below_next s1.0 fuel c k1 enough)
                    (λ z. OnChain-next (OnChain-Kept_back sound.kept (on ne)) z)
                    (Found-Kept first EdgeRole.left (left_of s c l) sound.kept
                      (Found-step s.0 first EdgeRole.left c l (on ne) fl))
                    (Found-Kept first EdgeRole.right (right_of s c r) sound.kept (
                      if_rule (λ x. Found floats s.0 first EdgeRole.right x)
                        (same_role (node s.0 c).role EdgeRole.left) (λ b. fr)
                        (λ b. Found-step s.0 first EdgeRole.right c r (on ne) fr))))
          ]

-- Folding a program that `vnt_ir_validate` accepts, from its root: the walk ends with fuel for twice
-- the nodes. Whatever value a node has afterwards it had before, for every meaning of the variables,
-- calls and other leaves; only nodes that became literals changed; and integer literals that were
-- within int64_t still are.
pub hir_fold_node-Sound_root :
    (floats : Floats) (ir : Program)
    → vnt_ir_validate ir ≡ true
    → (s : Changed) × (hir_fold_node floats (2 * node_count ir + 2) ir.root (ir, 0) ≡ some s)
      × Sound floats ir s.0
hir_fold_node-Sound_root floats ir valid =
    let t = vnt_ir_validate-IsForest ir valid in
    hir_fold_node-Sound floats ir t (2 * node_count ir + 2) ir.root (ir, 0) (Kept-refl ir)
      (omega (arith, t.bound ir.root))
