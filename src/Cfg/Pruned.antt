-- ===== src/Cfg/Pruned.antt =====
-- What `prune_unreachable_blocks` of src/compiler/cfg.c leaves of a graph.
use vnt.Base.{
  ℕ, zero, suc, ◌+◌, ◌-◌, ◌≤◌, ◌<◌, ◌≡◌, refl, ap, ◌∙◌, ◌≢◌, ◌↔◌, inl, inr, Bool, true, false, List,
  [], ◌∷◌, arith, ◌==◌, if◌then◌else◌, Bool-cases, length, get_or, count_below, count_below-le,
  count_below_mono, count_below_strict, count_below_select,
}
use native.Mathlib.Numerals.{add-one}
use vnt.Ir.Node.{no_node}
use vnt.Cfg.Graph.{Block, Cfg, block, block_count, blank_block, Edge}
use vnt.Cfg.Validate.{IsWellFormed}
use vnt.Cfg.Prune.{kept_below, new_index, rename_successor, rename_block, keep_blocks, rename_cfg}
use vnt.Cfg.Reach.{Reached, along}

length-keep_blocks :
    (r : ℕ → Bool) (i : ℕ) (bs : List Block)
    → length (keep_blocks r i bs) + count_below r i ≡ count_below r (i + length bs)
unfolding keep_blocks
length-keep_blocks r i [] = let e : i + 0 ≡ i = omega arith in rw e (omega arith)
length-keep_blocks r i (b ∷ bs) =
    let k = length-keep_blocks r (i + 1) bs in
    let e : i + suc (length bs) ≡ i + 1 + length bs = omega arith in
    let f : count_below r (i + 1) ≡ count_below r i + (if r i then 1 else 0) = rw add-one in
    rw e (ground arith)

get-keep_blocks :
    (r : ℕ → Bool) (i : ℕ) (bs : List Block) (d : Block) (j k : ℕ)
    → k < length bs
    → r (i + k) ≡ true
    → j + count_below r i ≡ count_below r (i + k)
    → get_or (keep_blocks r i bs) j d ≡ rename_block r (get_or bs k d)
unfolding keep_blocks
get-keep_blocks r i [] d j k lk on e = absurd (omega arith)
get-keep_blocks r i (b ∷ bs) d j zero lk on e =
    let z : i + 0 ≡ i = omega arith in
    let on' : r i ≡ true = rw z at on in
    let j0 : j ≡ 0 = omega (arith, ap (count_below r) z) in rw (on', j0)
get-keep_blocks r i (b ∷ bs) d j (suc k) lk on e =
    let s : i + suc k ≡ i + 1 + k = omega arith in
    let on' : r (i + 1 + k) ≡ true = rw s at on in
    let f : count_below r (i + 1) ≡ count_below r i + (if r i then 1 else 0) = rw add-one in
    let e' : j + count_below r i ≡ count_below r (i + 1 + k) = rw s at e in
    let above = count_below_mono r (i + 1) (i + 1 + k) (omega arith) in
    elim (Bool-cases (r i)) [
      | inl here ↦
          let f' : count_below r (i + 1) ≡ count_below r i + 1 = ground arith in
          let js : j ≡ suc (j - 1) = omega arith in
          rw here (
            ap (λ x. get_or (rename_block r b ∷ keep_blocks r (i + 1) bs) x d) js
            ∙ get-keep_blocks r (i + 1) bs d (j - 1) k (omega arith) on' (omega arith))
      | inr not_here ↦
          let f' : count_below r (i + 1) ≡ count_below r i = ground arith in
          rw not_here (get-keep_blocks r (i + 1) bs d j k (omega arith) on' (omega arith))
    ]

-- The graph that is left: the flagged blocks, in order, their links renamed.
pub record IsPruned (cfg : Cfg) (r : ℕ → Bool) (out : Cfg) : Type 0 where
  pub size : block_count out ≡ kept_below r (block_count cfg)
  pub kept :
      (i : ℕ)
      → i < block_count cfg
      → r i ≡ true
      → (kept_below r i < block_count out)
        × (block out (kept_below r i) ≡ rename_block r (block cfg i))
  pub only :
      (j : ℕ)
      → j < block_count out
      → (i : ℕ) × (i < block_count cfg) × (r i ≡ true) × (kept_below r i ≡ j)

pub rename_cfg-IsPruned : (cfg : Cfg) (r : ℕ → Bool) → IsPruned cfg r (rename_cfg r cfg)
unfolding rename_cfg block
rename_cfg-IsPruned cfg r =
    let size : block_count (rename_cfg r cfg) ≡ kept_below r (block_count cfg) =
      omega (arith, length-keep_blocks r 0 cfg.blocks, ap (count_below r) zero_plus) in
    record {
      size = size;
      kept = λ i li on. (
        omega (arith, count_below_strict r i (block_count cfg) li on, size),
        get-keep_blocks r 0 cfg.blocks blank_block (kept_below r i) i li (rw (plain i) on)
            (omega (arith, ap (count_below r) (plain i))),
      );
      only = λ j lj. count_below_select r (block_count cfg) j (omega arith);
    }
  where
    plain : (i : ℕ) → 0 + i ≡ i
    plain i = omega arith

    zero_plus : 0 + block_count cfg ≡ block_count cfg
    zero_plus = omega arith

-- The flags of a search that has found just the blocks that are reached.
pub record IsReach (cfg : Cfg) (r : ℕ → Bool) : Type 0 where
  pub exact : (i : ℕ) → (r i ≡ true) ↔ Reached cfg i
  pub inside : (i : ℕ) → r i ≡ true → i < block_count cfg

module _ (cfg : Cfg) (fits : block_count cfg ≤ no_node) (well : IsWellFormed cfg) (r : ℕ → Bool)
    (search : IsReach cfg r) (exit_reached : Reached cfg cfg.exit_block) where
  abbrev pub out : Cfg
  out = rename_cfg r cfg

  pub pruned : IsPruned cfg r out
  pruned = rename_cfg-IsPruned cfg r

  -- The new index of a reached block is a block.
  pub new_index-lt :
      (c : ℕ) → Reached cfg c → (new_index r c ≡ kept_below r c) × (new_index r c < block_count out)
  unfolding new_index
  new_index-lt c p =
      let on = (search.exact c).1 p in rw on (refl, (pruned.kept c (search.inside c on) on).0)

  pub block_count-out : block_count out ≤ no_node
  block_count-out = omega (arith, pruned.size, count_below-le r (block_count cfg))

  -- A successor of a reached block is there after the renaming just where it was before.
  pub rename_successor-there :
      (b c : ℕ)
      → Reached cfg b
      → (c ≢ no_node → Edge cfg b c)
      → c ≢ no_node
      → (rename_successor r c ≢ no_node) × (rename_successor r c < block_count out)
  unfolding rename_successor
  rename_successor-there b c p edge ne =
      let off : (c == no_node) ≡ false = ground arith in
      let k = (new_index-lt c (along p (edge ne))).1 in
      let bound = block_count-out in rw off ((λ e. absurd (omega arith)), k)

  pub rename_successor-missing : (c : ℕ) → c ≡ no_node → rename_successor r c ≡ no_node
  unfolding rename_successor
  rename_successor-missing c e = let on : (c == no_node) ≡ true = ground arith in rw on e
