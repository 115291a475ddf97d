-- ===== src/Cfg/Placed.antt =====
-- What a step of the graph's building in src/compiler/cfg.c adds to the blocks.
use vnt.Base.{
  ℕ, zero, suc, ◌+◌, ◌/◌, ◌≤◌, ◌<◌, ◌≡◌, refl, sym, ap, ◌∙◌, subst, ◌≢◌, inl, inr, true, false,
  ◌||◌, List, [], ◌∷◌, ◌++◌, arith, ltb, ◌==◌, ltb→lt, ==_iff, Bool-cases, if_rule, length, get_or,
  length-append,
}
use vnt.Ir.Node.{no_node}
use vnt.Cfg.Graph.{Block, Cfg, blank_block}
use vnt.Cfg.Validate.{IsTerminated}
use vnt.Cfg.Build.{Builder, new_block, block_size, grown}

abbrev pub count : Builder → ℕ
count b = length b.blocks

abbrev pub block_at : Builder → ℕ → Block
block_at b i = get_or b.blocks i blank_block

pub get_or-append {ℓ} :
    {A : Type ℓ} (xs : List A) (y : A) (i : ℕ) (d : A)
    → i < length xs
    → get_or (xs ++ y ∷ []) i d ≡ get_or xs i d
get_or-append [] y i d h = absurd (omega arith)
get_or-append (x ∷ xs) y zero d h = refl
get_or-append (x ∷ xs) y (suc i) d h = get_or-append xs y i d (omega arith)

pub get_or-append_last {ℓ} :
    {A : Type ℓ} (xs : List A) (y d : A) → get_or (xs ++ y ∷ []) (length xs) d ≡ y
get_or-append_last [] y d = refl
get_or-append_last (x ∷ xs) y d = get_or-append_last xs y d

-- The exit block is all that `IsTerminated` asks of a graph.
abbrev pub frame : ℕ → Cfg
frame e = record { blocks = []; entries = []; exit_block = e }

-- A block, at its index, of a graph of `n` blocks.
pub record IsGood (e n i : ℕ) (b : Block) : Type 0 where
  pub terminated : IsTerminated (frame e) i b
  pub on_true : b.true_successor ≢ no_node → b.true_successor < n
  pub on_false : b.false_successor ≢ no_node → b.false_successor < n

pub IsGood-mono : {e n i : ℕ} {b : Block} (m : ℕ) → n ≤ m → IsGood e n i b → IsGood e m i b
IsGood-mono m h g = record {
  terminated = g.terminated;
  on_true = λ ne. omega (arith, g.on_true ne);
  on_false = λ ne. omega (arith, g.on_false ne);
}

-- The block array fits into memory.
pub record Fits (b : Builder) : Type 0 where
  pub used : count b ≤ b.capacity
  pub bound : b.capacity ≤ no_node / block_size

pub Fits-count : (b : Builder) → Fits b → count b < no_node
unfolding no_node
Fits-count b f = omega (arith, f.used, f.bound)

-- A block has been appended.
pub record Appended (x : Block) (b : Builder) (r : ℕ × Builder) : Type 0 where
  pub fine : r.1.failed ≡ b.failed
  pub index : r.0 ≡ count b
  pub blocks : r.1.blocks ≡ b.blocks ++ x ∷ []
  pub exit : r.1.exit_block ≡ b.exit_block
  pub fits : Fits r.1

pub new_block-Appended :
    (x : Block) (b : Builder)
    → Fits b
    → (new_block x b).1.failed ≡ false
    → Appended x b (new_block x b)
unfolding new_block no_node
new_block-Appended x b f =
    if_rule (λ r. r.1.failed ≡ false → Appended x b r) (length b.blocks == b.capacity)
      (λ full.
        if_rule (λ r. r.1.failed ≡ false → Appended x b r)
          (ltb (grown b.capacity) b.capacity || ltb (no_node / block_size) (grown b.capacity))
          (λ h e. cc)
          λ h e. record {
            fine = refl;
            index = refl;
            blocks = refl;
            exit = refl;
            fits = record {
              used = omega (arith, length-append b.blocks (x ∷ []), more full);
              bound = ground arith;
            };
          })
      λ room e.
        let used = f.used in
        let below : length b.blocks < b.capacity = ground arith in
        record {
          fine = refl;
          index = refl;
          blocks = refl;
          exit = refl;
          fits = record { used = omega (arith, length-append b.blocks (x ∷ [])); bound = f.bound };
        }
  where
    more : (length b.blocks == b.capacity) ≡ true → length b.blocks + 1 ≤ grown b.capacity
    more full =
        let bound = f.bound in
        let same = (==_iff (length b.blocks) b.capacity).0 full in
        if_rule (λ g. length b.blocks + 1 ≤ g) (b.capacity == 0) (λ z. ground arith)
          (λ nz. let pos : b.capacity ≢ 0 = ground arith in omega arith)

-- What a part of the building does, where it does not fail: it adds good blocks and returns a block.
pub record Adds (b : Builder) (r : ℕ × Builder) : Type 0 where
  pub fine : b.failed ≡ false
  pub more : count b ≤ count r.1
  pub kept : (i : ℕ) → i < count b → block_at r.1 i ≡ block_at b i
  pub good :
      (i : ℕ) → count b ≤ i → i < count r.1 → IsGood b.exit_block (count r.1) i (block_at r.1 i)
  pub entry : r.0 < count r.1
  pub exit : r.1.exit_block ≡ b.exit_block
  pub fits : Fits r.1

pub Adds-nothing :
    (b : Builder) (next : ℕ) → b.failed ≡ false → next < count b → Fits b → Adds b (next, b)
Adds-nothing b next e lt f = record {
  fine = e;
  more = omega arith;
  kept = λ i h. refl;
  good = λ i lo hi. absurd (omega arith);
  entry = lt;
  exit = refl;
  fits = f;
}

pub Adds-then : {b : Builder} {r q : ℕ × Builder} → Adds b r → Adds r.1 q → Adds b q
Adds-then {b} {r} {q} f g = record {
  fine = f.fine;
  more = omega (arith, f.more, g.more);
  kept = λ i h. g.kept i (omega (arith, f.more)) ∙ f.kept i h;
  good = λ i lo hi. elim (Bool-cases (ltb i (count r.1))) [
    | inl old ↦
        rw (g.kept i (ltb→lt _ _ old))
          (IsGood-mono (count q.1) g.more (f.good i lo (ltb→lt _ _ old)))
    | inr new ↦
        subst (λ e. IsGood e (count q.1) i (block_at q.1 i)) f.exit (g.good i (ground arith) hi)
  ];
  entry = g.entry;
  exit = g.exit ∙ f.exit;
  fits = g.fits;
}

-- A block that is good at the end of the array.
pub new_block-Adds :
    (x : Block) (b : Builder)
    → Fits b
    → (new_block x b).1.failed ≡ false
    → IsGood b.exit_block (count b + 1) (count b) x
    → Adds b (new_block x b)
new_block-Adds x b f e g =
    let a = new_block-Appended x b f e in
    let size : count (new_block x b).1 ≡ count b + 1 =
      ap length a.blocks ∙ length-append b.blocks (x ∷ []) in
    record {
      fine = sym a.fine ∙ e;
      more = omega (arith, size);
      kept = λ i h.
          ap (λ l. get_or l i blank_block) a.blocks ∙ get_or-append b.blocks x i blank_block h;
      good = λ i lo hi.
          let at : i ≡ count b = omega (arith, size) in
          let same : block_at (new_block x b).1 i ≡ x =
            ap (λ l. get_or l i blank_block) a.blocks
            ∙ ap (λ j. get_or (b.blocks ++ x ∷ []) j blank_block) at
            ∙ get_or-append_last b.blocks x blank_block in
          rw (same, size) (rw at g);
      entry = omega (arith, a.index, size);
      exit = a.exit;
      fits = a.fits;
    }
