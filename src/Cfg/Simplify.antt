-- ===== src/Cfg/Simplify.antt =====
-- `simplify_constant_branches` of src/compiler/cfg.c keeps a graph well formed, and what the clean-up of
-- `vnt_cfg_build` returns.
use vnt.Base.{
  ℕ, zero, suc, ◌≤◌, ◌<◌, ◌≡◌, refl, sym, ap, ◌∙◌, subst, ◌≢◌, ◌⊎◌, inl, inr, Bool, true, false,
  not, ◌||◌, Option, List, [], ◌∷◌, map, arith, leb, if◌then◌else◌, if_rule, length, get_or, All,
}
use vnt.Ir.Node.{Program, no_node, node, node_count, boolean_of}
use vnt.Cfg.Graph.{
  Terminator, Block, Cfg, block, block_count, blank_block, Edge, true_edge, false_edge, branch,
  jump,
}
use vnt.Cfg.Validate.{
  IsWellFormed, IsTerminated, as_branch, as_exit, as_return, as_jump, as_fallthrough,
  vnt_cfg_validate_iff,
}
use vnt.Cfg.Prune.{
  simplify_block, simplify_constant_branches, prune_unreachable_blocks, rename_cfg, built, refused,
  clean_up, checked, is_branch, is_boolean,
}
use vnt.Cfg.Reach.{Reached}
use vnt.Cfg.Pruned.{IsPruned, IsReach}
use vnt.Cfg.CleanUp.{Pruning, left_over, endless, prune_unreachable_blocks-Pruning}

length-map_native {ℓ κ} :
    {A : Type ℓ} {B : Type κ} (f : A → B) (xs : List A) → length (map f xs) ≡ length xs
length-map_native f [] = refl
length-map_native f (x ∷ xs) = ap suc (length-map_native f xs)

pub get_or-map {ℓ κ} :
    {A : Type ℓ} {B : Type κ} (f : A → B) (xs : List A) (i : ℕ) (a : A) (b : B)
    → i < length xs
    → get_or (map f xs) i b ≡ f (get_or xs i a)
get_or-map f [] i a b h = absurd (omega arith)
get_or-map f (x ∷ xs) zero a b h = refl
get_or-map f (x ∷ xs) (suc i) a b h = get_or-map f xs i a b (omega arith)

-- A simplified block is the block itself, or a jump along one of its edges.
data Simplified (b : Block) : Block → Type 0 where
  same : Simplified b b
  chosen :
      {s : ℕ}
      → b.terminator ≡ branch
      → (s ≡ b.true_successor) ⊎ (s ≡ b.false_successor)
      → Simplified b (record {
        instruction = no_node;
        condition = no_node;
        true_successor = s;
        false_successor = no_node;
        terminator = jump;
      })

is_branch-eq : (t : Terminator) → is_branch t ≡ true → t ≡ branch
is_branch-eq branch h = refl
is_branch-eq _ h = cc

one_of : (c : Bool) (x y : ℕ) → ((if c then x else y) ≡ x) ⊎ ((if c then x else y) ≡ y)
one_of true x y = inl refl
one_of false x y = inr refl

simplify_block-Simplified : (ir : Program) (b : Block) → Simplified b (simplify_block ir b)
unfolding simplify_block
simplify_block-Simplified ir b =
    if_rule (Simplified b) (not (is_branch b.terminator) || leb (node_count ir) b.condition)
      (λ _. same)
      λ k.
        let t : is_branch b.terminator ≡ true = ground arith in
        if_rule (Simplified b) (not (is_boolean (node ir b.condition).opcode)) (λ _. same)
          λ _. chosen (is_branch-eq b.terminator t) (one_of (boolean_of (node ir b.condition)) _ _)

module _ (ir : Program) (cfg : Cfg) (well : IsWellFormed cfg) where
  abbrev simple : Cfg
  simple = simplify_constant_branches ir cfg

  pub size : block_count simple ≡ block_count cfg
  unfolding simplify_constant_branches
  size = length-map_native (simplify_block ir) cfg.blocks

  block-Simplified : (i : ℕ) → i < block_count cfg → Simplified (block cfg i) (block simple i)
  unfolding block simplify_constant_branches
  block-Simplified i lt =
      rw (get_or-map (simplify_block ir) cfg.blocks i blank_block blank_block lt)
        (simplify_block-Simplified ir (get_or cfg.blocks i blank_block))

  Simplified-IsTerminated :
      {b c : Block} (i : ℕ) → Simplified b c → IsTerminated cfg i b → IsTerminated simple i c
  unfolding simplify_constant_branches
  Simplified-IsTerminated i same (as_branch e n c t f) = as_branch e n c t f
  Simplified-IsTerminated i same (as_exit e at n c t f) = as_exit e at n c t f
  Simplified-IsTerminated i same (as_return e n c t f) = as_return e n c t f
  Simplified-IsTerminated i same (as_jump e c t f) = as_jump e c t f
  Simplified-IsTerminated i same (as_fallthrough e n c t f) = as_fallthrough e n c t f
  Simplified-IsTerminated i (chosen at (inl e)) (as_branch _ n c t f) =
      as_jump refl refl (λ z. t (sym e ∙ z)) refl
  Simplified-IsTerminated i (chosen at (inr e)) (as_branch _ n c t f) =
      as_jump refl refl (λ z. f (sym e ∙ z)) refl
  Simplified-IsTerminated i (chosen at s) (as_exit e _ n c t f) = cc
  Simplified-IsTerminated i (chosen at s) (as_return e n c t f) = cc
  Simplified-IsTerminated i (chosen at s) (as_jump e c t f) = cc
  Simplified-IsTerminated i (chosen at s) (as_fallthrough e n c t f) = cc

  Simplified-successor :
      {b c : Block}
      → Simplified b c
      → (d : ℕ) → (c.true_successor ≡ d) ⊎ (c.false_successor ≡ d)
      → d ≢ no_node
      → (b.true_successor ≡ d) ⊎ (b.false_successor ≡ d)
  Simplified-successor same d h ne = h
  Simplified-successor (chosen at (inl e)) d (inl h) ne = inl (sym e ∙ h)
  Simplified-successor (chosen at (inr e)) d (inl h) ne = inr (sym e ∙ h)
  Simplified-successor (chosen at s) d (inr h) ne = absurd (ne (sym h))

  -- Every edge that is left was there before.
  pub simplified-Edge : {b c : ℕ} → b < block_count cfg → Edge simple b c → Edge cfg b c
  simplified-Edge {b} {c} lt (true_edge e ne) =
      elim (Simplified-successor (block-Simplified b lt) c (inl e) ne) [
        | inl t ↦ true_edge t ne
        | inr f ↦ false_edge f ne
      ]
  simplified-Edge {b} {c} lt (false_edge e ne) =
      elim (Simplified-successor (block-Simplified b lt) c (inr e) ne) [
        | inl t ↦ true_edge t ne
        | inr f ↦ false_edge f ne
      ]

  -- Folding the branches on literals keeps a graph well formed.
  pub simplify_constant_branches-IsWellFormed : IsWellFormed simple
  simplify_constant_branches-IsWellFormed =
      let entries : All (λ e. e < block_count simple) cfg.entries =
        subst (λ n. All (λ e. e < n) cfg.entries) (sym size) well.entries_inside in
      record {
        exit_inside = unfold simplify_constant_branches in omega (arith, size, well.exit_inside);
        has_entry = unfold simplify_constant_branches in well.has_entry;
        entries_inside = unfold simplify_constant_branches in entries;
        edges_inside = λ b c lt edge.
            let lt' : b < block_count cfg = omega (arith, size) in
            omega (arith, size, well.edges_inside b c lt' (simplified-Edge lt' edge));
        terminated = λ i lt.
            let lt' : i < block_count cfg = omega (arith, size) in
            Simplified-IsTerminated i (block-Simplified i lt') (well.terminated i lt');
      }

  -- The clean-up of a well-formed graph of no more blocks than there are indices returns the well-formed
  -- rest of it where the exit is reached, and refuses it elsewhere: the last check refuses nothing.
  pub clean_up_cases :
      block_count cfg ≤ no_node
      → (r : ℕ → Bool) × IsReach simple r
        × (Reached simple simple.exit_block
              × (clean_up ir cfg ≡ built (rename_cfg r simple))
              × IsPruned simple r (rename_cfg r simple)
              × IsWellFormed (rename_cfg r simple)
            ⊎ (¬ Reached simple simple.exit_block) × (clean_up ir cfg ≡ refused))
  unfolding clean_up checked
  clean_up_cases fits =
      let (r, search, p) =
        prune_unreachable_blocks-Pruning simple (omega (arith, size))
          simplify_constant_branches-IsWellFormed in
      (r, search, go r (prune_unreachable_blocks simple) p refl)
    where
      go :
          (r : ℕ → Bool) (o : Option Cfg)
          → Pruning simple r o
          → prune_unreachable_blocks simple ≡ o
          → Reached simple simple.exit_block
              × (clean_up ir cfg ≡ built (rename_cfg r simple))
              × IsPruned simple r (rename_cfg r simple)
              × IsWellFormed (rename_cfg r simple)
            ⊎ (¬ Reached simple simple.exit_block) × (clean_up ir cfg ≡ refused)
      go r o (left_over p kept w) e =
          inl (p, ap checked e ∙ rw ((vnt_cfg_validate_iff (rename_cfg r simple)).1 w), kept, w)
      go r o (endless no_path) e = inr (no_path, ap checked e)
