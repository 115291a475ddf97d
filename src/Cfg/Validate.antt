-- ===== src/Cfg/Validate.antt =====
-- `vnt_cfg_validate` of src/compiler/cfg.c.
use vnt.Base.{
  ℕ, zero, suc, ◌+◌, ◌≤◌, ◌<◌, ◌≡◌, refl, ap, ◌≢◌, ◌↔◌, inl, inr, Bool, true, not, ◌&&◌, ◌||◌, List,
  [], ◌∷◌, arith, ltb, ◌==◌, ltb→lt, lt→ltb, ==_iff, Bool-cases, and-eq-true, length, All,
}
use vnt.Ir.Node.{no_node}
use vnt.Cfg.Graph.{
  Terminator, Block, Cfg, fallthrough, branch, jump, return, exit, block, block_count, Edge,
  true_edge, false_edge, HasEdgesInside,
}

-- A successor is missing, or a block.
unfoldable pub successor_ok : Cfg → ℕ → Bool
successor_ok cfg c = c == no_node || ltb c (block_count cfg)

-- What a terminator asks of the other fields, at block `i`.
unfoldable pub terminator_ok : Cfg → ℕ → Block → Bool
terminator_ok cfg i b =
    let no_instruction = b.instruction == no_node in
    let no_condition = b.condition == no_node in
    let no_true = b.true_successor == no_node in
    let no_false = b.false_successor == no_node in
    elim b.terminator [
      | branch ↦ (not no_condition && not no_true) && (not no_false && no_instruction)
      | exit ↦ (i == cfg.exit_block && no_instruction) && (no_condition && (no_true && no_false))
      | return ↦
          (not no_instruction && no_condition) && (b.true_successor == cfg.exit_block && no_false)
      | jump ↦ no_condition && (not no_true && no_false)
      | fallthrough ↦ (not no_instruction && no_condition) && (not no_true && no_false)
    ]

unfoldable pub block_ok : Cfg → ℕ → Bool
unfolding successor_ok
block_ok cfg i =
    (successor_ok cfg (block cfg i).true_successor
      && successor_ok cfg (block cfg i).false_successor)
    && terminator_ok cfg i (block cfg i)

-- for (i = ...; n blocks are left; ++i)
unfoldable pub blocks_ok : Cfg → ℕ → ℕ → Bool
blocks_ok cfg zero i = true
blocks_ok cfg (suc n) i = block_ok cfg i && blocks_ok cfg n (i + 1)

unfoldable pub entries_ok : Cfg → List ℕ → Bool
entries_ok cfg [] = true
entries_ok cfg (e ∷ es) = ltb e (block_count cfg) && entries_ok cfg es

unfoldable pub vnt_cfg_validate : Cfg → Bool
vnt_cfg_validate cfg =
    ((ltb 0 (block_count cfg) && ltb cfg.exit_block (block_count cfg))
      && (ltb 0 (length cfg.entries) && entries_ok cfg cfg.entries))
    && blocks_ok cfg (block_count cfg) 0

-- A block's fields fit its terminator: how control may leave a block.
pub data IsTerminated (cfg : Cfg) (i : ℕ) (b : Block) : Type 0 where
  as_branch :
      b.terminator ≡ branch
      → b.instruction ≡ no_node
      → b.condition ≢ no_node
      → b.true_successor ≢ no_node
      → b.false_successor ≢ no_node
      → IsTerminated cfg i b
  as_exit :
      b.terminator ≡ exit
      → i ≡ cfg.exit_block
      → b.instruction ≡ no_node
      → b.condition ≡ no_node
      → b.true_successor ≡ no_node
      → b.false_successor ≡ no_node
      → IsTerminated cfg i b
  as_return :
      b.terminator ≡ return
      → b.instruction ≢ no_node
      → b.condition ≡ no_node
      → b.true_successor ≡ cfg.exit_block
      → b.false_successor ≡ no_node
      → IsTerminated cfg i b
  as_jump :
      b.terminator ≡ jump
      → b.condition ≡ no_node
      → b.true_successor ≢ no_node
      → b.false_successor ≡ no_node
      → IsTerminated cfg i b
  as_fallthrough :
      b.terminator ≡ fallthrough
      → b.instruction ≢ no_node
      → b.condition ≡ no_node
      → b.true_successor ≢ no_node
      → b.false_successor ≡ no_node
      → IsTerminated cfg i b

-- A graph that the later passes may walk without a check.
pub record IsWellFormed (cfg : Cfg) : Type 0 where
  pub exit_inside : cfg.exit_block < block_count cfg
  pub has_entry : 0 < length cfg.entries
  pub entries_inside : All (λ e. e < block_count cfg) cfg.entries
  pub edges_inside : (b c : ℕ) → b < block_count cfg → Edge cfg b c → c < block_count cfg
  pub terminated : (i : ℕ) → i < block_count cfg → IsTerminated cfg i (block cfg i)

terminator_ok-IsTerminated :
    (cfg : Cfg) (i : ℕ) (b : Block) → terminator_ok cfg i b ≡ true → IsTerminated cfg i b
unfolding terminator_ok
terminator_ok-IsTerminated cfg i b h = go b.terminator refl (ap (λ t. t) h)
  where
    go : (t : Terminator) → b.terminator ≡ t → terminator_ok cfg i b ≡ true → IsTerminated cfg i b
    go branch e k = as_branch e (ground arith) (ground arith) (ground arith) (ground arith)
    go exit e k =
        as_exit e (ground arith) (ground arith) (ground arith) (ground arith) (ground arith)
    go return e k = as_return e (ground arith) (ground arith) (ground arith) (ground arith)
    go jump e k = as_jump e (ground arith) (ground arith) (ground arith)
    go fallthrough e k =
        as_fallthrough e (ground arith) (ground arith) (ground arith) (ground arith)

IsTerminated-terminator_ok :
    (cfg : Cfg) (i : ℕ) (b : Block) → IsTerminated cfg i b → terminator_ok cfg i b ≡ true
unfolding terminator_ok
IsTerminated-terminator_ok cfg i b (as_branch e p q r s) = ground arith
IsTerminated-terminator_ok cfg i b (as_exit e p q r s t) = ground arith
IsTerminated-terminator_ok cfg i b (as_return e p q r s) = ground arith
IsTerminated-terminator_ok cfg i b (as_jump e p q r) = ground arith
IsTerminated-terminator_ok cfg i b (as_fallthrough e p q r s) = ground arith

blocks_ok_at :
    (cfg : Cfg) (n i : ℕ)
    → blocks_ok cfg n i ≡ true
    → (j : ℕ) → i ≤ j
    → j < i + n
    → block_ok cfg j ≡ true
unfolding blocks_ok
blocks_ok_at cfg zero i h j lo hi = absurd (omega arith)
blocks_ok_at cfg (suc n) i h j lo hi =
    let p = and-eq-true (block_ok cfg i) (blocks_ok cfg n (i + 1)) h in
    elim (Bool-cases (j == i)) [
      | inl at ↦ rw ((==_iff j i).0 at) p.0
      | inr later ↦ blocks_ok_at cfg n (i + 1) p.1 j (ground arith) (omega arith)
    ]

blocks_ok_all :
    (cfg : Cfg) (n i : ℕ)
    → ((j : ℕ) → i ≤ j → j < i + n → block_ok cfg j ≡ true)
    → blocks_ok cfg n i ≡ true
unfolding blocks_ok
blocks_ok_all cfg zero i h = refl
blocks_ok_all cfg (suc n) i h =
    rw (h i (omega arith) (omega arith))
      (blocks_ok_all cfg n (i + 1) (λ j lo hi. h j (omega arith) (omega arith)))

entries_ok_iff :
    (cfg : Cfg) (es : List ℕ) → (entries_ok cfg es ≡ true) ↔ All (λ e. e < block_count cfg) es
unfolding entries_ok
entries_ok_iff cfg [] = (λ h. tt, λ h. refl)
entries_ok_iff cfg (e ∷ es) = (
  λ h.
      let p = and-eq-true (ltb e (block_count cfg)) (entries_ok cfg es) h in
      (ltb→lt _ _ p.0, (entries_ok_iff cfg es).0 p.1),
  λ a. rw (lt→ltb _ _ a.0, (entries_ok_iff cfg es).1 a.1),
)

block_ok-edges : (cfg : Cfg) (b c : ℕ) → block_ok cfg b ≡ true → Edge cfg b c → c < block_count cfg
unfolding block_ok
block_ok-edges cfg b c h (true_edge e ne) = ground arith
block_ok-edges cfg b c h (false_edge e ne) = ground arith

successor_ok_from :
    (cfg : Cfg) (c : ℕ) → (c ≢ no_node → c < block_count cfg) → successor_ok cfg c ≡ true
unfolding successor_ok
successor_ok_from cfg c h = ground (arith, h)

block_ok_from :
    (cfg : Cfg) (i : ℕ)
    → ((c : ℕ) → Edge cfg i c → c < block_count cfg)
    → IsTerminated cfg i (block cfg i)
    → block_ok cfg i ≡ true
unfolding block_ok
block_ok_from cfg i h t = rw (
  successor_ok_from cfg (block cfg i).true_successor (λ ne. h _ (true_edge refl ne)),
  successor_ok_from cfg (block cfg i).false_successor (λ ne. h _ (false_edge refl ne)),
  IsTerminated-terminator_ok cfg i (block cfg i) t,
)

block_ok-IsTerminated :
    (cfg : Cfg) (i : ℕ) → block_ok cfg i ≡ true → IsTerminated cfg i (block cfg i)
unfolding block_ok
block_ok-IsTerminated cfg i h =
    terminator_ok-IsTerminated cfg i (block cfg i)
      (and-eq-true _ (terminator_ok cfg i (block cfg i)) h).1

-- The check accepts exactly the well-formed graphs: entries and edges lead to blocks, and the fields of
-- each block fit its terminator.
pub vnt_cfg_validate_iff : (cfg : Cfg) → (vnt_cfg_validate cfg ≡ true) ↔ IsWellFormed cfg
unfolding vnt_cfg_validate
vnt_cfg_validate_iff cfg = (to, from)
  where
    to : vnt_cfg_validate cfg ≡ true → IsWellFormed cfg
    to h =
        let p = and-eq-true _ (blocks_ok cfg (block_count cfg) 0) h in
        let q =
          and-eq-true (ltb 0 (block_count cfg) && ltb cfg.exit_block (block_count cfg)) _ p.0 in
        let e = and-eq-true (ltb 0 (length cfg.entries)) (entries_ok cfg cfg.entries) q.1 in
        let at : (j : ℕ) → j < block_count cfg → block_ok cfg j ≡ true =
          λ j lj. blocks_ok_at cfg (block_count cfg) 0 p.1 j (omega arith) (omega arith) in
        record {
          exit_inside = ltb→lt _ _ (and-eq-true (ltb 0 (block_count cfg)) _ q.0).1;
          has_entry = ltb→lt _ _ e.0;
          entries_inside = (entries_ok_iff cfg cfg.entries).0 e.1;
          edges_inside = λ b c lb edge. block_ok-edges cfg b c (at b lb) edge;
          terminated = λ i li. block_ok-IsTerminated cfg i (at i li);
        }

    from : IsWellFormed cfg → vnt_cfg_validate cfg ≡ true
    from w =
        let some_block : ltb 0 (block_count cfg) ≡ true =
          lt→ltb _ _ (omega (arith, w.exit_inside)) in
        rw (
          some_block,
          lt→ltb _ _ w.exit_inside,
          lt→ltb _ _ w.has_entry,
          (entries_ok_iff cfg cfg.entries).1 w.entries_inside,
          blocks_ok_all cfg (block_count cfg) 0 (λ j lo hi.
              block_ok_from cfg j (λ c. w.edges_inside j c (omega arith))
                (w.terminated j (omega arith))),
        )

-- An accepted graph of fewer blocks than there are indices is fit for the data-flow loops.
pub IsWellFormed-HasEdgesInside :
    (cfg : Cfg) → block_count cfg ≤ no_node → IsWellFormed cfg → HasEdgesInside cfg
IsWellFormed-HasEdgesInside cfg fits w = record { fits = fits; inside = w.edges_inside }
