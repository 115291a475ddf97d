-- ===== src/Cfg/Whole.antt =====
-- `vnt_cfg_build` of src/compiler/cfg.c as a whole: it ends, and what it returns is well formed.
use vnt.Base.{
  ℕ, zero, suc, ◌+◌, ◌≤◌, ◌<◌, ◌≡◌, refl, sym, ◌∙◌, subst, inl, inr, Bool, true, false, Option,
  none, some, List, [], ◌∷◌, ◌++◌, arith, ltb, ◌==◌, ltb→lt, Bool-cases, length, get_or, All,
  length-append,
}
use vnt.Ir.Node.{EdgeRole, Program, no_node, node, node_count, same_role}
use vnt.Ir.Validate.{vnt_ir_validate}
use vnt.Ir.Forest.{vnt_ir_validate-IsForest}
use vnt.Cfg.Graph.{Block, Cfg, blank_block, block, block_count, Edge, true_edge, false_edge, exit}
use vnt.Cfg.Validate.{
  IsWellFormed, IsTerminated, as_branch, as_exit, as_return, as_jump, as_fallthrough,
}
use vnt.Cfg.Effects.{◌>>=◌}
use vnt.Cfg.Build.{
  Entries, build_sequence, build_statement, build_entry, build_functions, is_function,
  unless_failed, new_block, a_block, build_graph, with_exit, no_blocks, to_cfg,
}
use vnt.Cfg.Ends.{build_graph-Ends}
use vnt.Cfg.Placed.{count, block_at, frame, IsGood, IsGood-mono, Fits, Fits-count}
use vnt.Cfg.Built.{bind-some, Place, build_sequence-Adding}
use vnt.Cfg.Statements.{build_statement-Adding}
use vnt.Cfg.Prune.{
  simplify_constant_branches, rename_cfg, Build, built, refused, clean_up, vnt_cfg_build,
}
use vnt.Cfg.Reach.{Reached}
use vnt.Cfg.Pruned.{IsPruned, IsReach}
use vnt.Cfg.Simplify.{clean_up_cases}

All-mono : (m n : ℕ) (xs : List ℕ) → m ≤ n → All (λ x. x < m) xs → All (λ x. x < n) xs
All-mono m n [] h a = tt
All-mono m n (x ∷ xs) h a = (omega (arith, a.0), All-mono m n xs h a.1)

-- The blocks and entries so far are good.
record IsState (s : Entries) : Type 0 where
  fine : s.0.failed ≡ false
  good : (i : ℕ) → i < count s.0 → IsGood s.0.exit_block (count s.0) i (block_at s.0 i)
  exit : s.0.exit_block < count s.0
  fits : Fits s.0
  entries : All (λ e. e < count s.0) s.1

start_entries : Entries
start_entries = (with_exit (new_block (a_block exit no_node no_node no_node no_node) no_blocks), [])

start-IsState : IsState start_entries
unfolding start_entries new_block no_node
start-IsState = record {
  fine = refl;
  good = λ i hi. first i (omega arith);
  exit = omega arith;
  fits = record { used = omega arith; bound = omega arith };
  entries = tt;
}
  where
    first :
        (i : ℕ)
        → i < 1
        → IsGood 0 1 i (get_or (a_block exit no_node no_node no_node no_node ∷ []) i blank_block)
    first zero h = record {
      terminated = as_exit refl refl refl refl refl refl;
      on_true = λ ne. absurd (ne refl);
      on_false = λ ne. absurd (ne refl);
    }
    first (suc i) h = absurd (omega arith)

module _ (ir : Program) (fits_ir : node_count ir ≤ no_node) where
  build_entry-IsState :
      (parent : ℕ) (role : EdgeRole) (skip : Bool) (s s' : Entries)
      → same_role EdgeRole.root role ≡ false
      → IsState s
      → build_entry ir parent role skip s ≡ some (some s')
      → IsState s' × (0 < length s'.1)
  unfolding build_entry
  build_entry-IsState parent role skip s s' other st h =
      let b = s.0 in
      let statement = build_statement ir (suc (node_count ir)) in
      let (r, er, k) =
        bind-some (build_sequence statement no_node no_node ir parent role b.exit_block skip b) _
          (some s') h in
      let done : r.1.failed ≡ false = ground arith in
      let same : (r.1, s.1 ++ r.0 ∷ []) ≡ s' = ground arith in
      let at : Place b.exit_block no_node no_node b = record {
        next_inside = st.exit;
        break_inside = λ ne. absurd (ne refl);
        continue_inside = λ ne. absurd (ne refl);
        exit_inside = st.exit;
        fits = st.fits;
      } in
      let a =
        build_sequence-Adding ir statement
          (λ c n brk cont x lt p f.
            build_statement-Adding ir fits_ir (suc (node_count ir)) c n brk cont x lt p f)
          no_node no_node parent role b.exit_block skip b other at st.fine r er done in
      subst (λ (x : Entries). IsState x × (0 < length x.1)) same
        (
          record {
            fine = done;
            good = λ i hi. elim (Bool-cases (ltb i (count b))) [
              | inl old ↦
                  rw (a.kept i (ltb→lt _ _ old), a.exit)
                    (IsGood-mono (count r.1) a.more (st.good i (ltb→lt _ _ old)))
              | inr new ↦ rw a.exit (a.good i (ground arith) hi)
            ];
            exit = omega (arith, a.exit, st.exit, a.more);
            fits = a.fits;
            entries =
                All-snoc (λ e. e < count r.1) s.1 r.0
                  (All-mono (count b) (count r.1) s.1 a.more st.entries) a.entry;
          },
          omega (arith, length-append s.1 (r.0 ∷ [])),
        )
    where
      All-snoc : (P : ℕ → Type 0) (xs : List ℕ) (x : ℕ) → All P xs → P x → All P (xs ++ x ∷ [])
      All-snoc P [] x a p = (p, tt)
      All-snoc P (y ∷ xs) x a p = (a.0, All-snoc P xs x a.1 p)

  build_functions-IsState :
      (n i : ℕ) (s s' : Entries)
      → IsState s
      → 0 < length s.1
      → build_functions ir n i s ≡ some (some s')
      → IsState s' × (0 < length s'.1)
  unfolding build_functions same_role
  build_functions-IsState zero i s s' st pos h =
      let same : s ≡ s' = cc in subst (λ (x : Entries). IsState x × (0 < length x.1)) same (st, pos)
  build_functions-IsState (suc n) i s s' st pos h = elim (Bool-cases (is_function (node ir i))) [
    | inl function ↦
        let (o, eo, k) =
          bind-some (build_entry ir i EdgeRole.body false s) _ (some s') (rw function at h) in
        go o eo k (λ q w z. build_functions-IsState n (i + 1) q s' w z)
    | inr plain ↦ build_functions-IsState n (i + 1) s s' st pos (rw plain at h)
  ]
    where
      go :
          (o : Option Entries)
          → build_entry ir i EdgeRole.body false s ≡ some o
          → unless_failed o (build_functions ir n (i + 1)) ≡ some (some s')
          → ((q : Entries)
              → IsState q
              → 0 < length q.1
              → build_functions ir n (i + 1) q ≡ some (some s')
              → IsState s' × (0 < length s'.1))
          → IsState s' × (0 < length s'.1)
      go none eo k again = cc
      go (some q) eo k again =
          let w = build_entry-IsState i EdgeRole.body false s q refl st eo in again q w.0 w.1 k

-- The exit block is all that differs between a graph and the frame.
frame-IsTerminated :
    (cfg : Cfg) (i : ℕ) (b : Block) → IsTerminated (frame cfg.exit_block) i b → IsTerminated cfg i b
frame-IsTerminated cfg i b (as_branch e n c t f) = as_branch e n c t f
frame-IsTerminated cfg i b (as_exit e at n c t f) = as_exit e at n c t f
frame-IsTerminated cfg i b (as_return e n c t f) = as_return e n c t f
frame-IsTerminated cfg i b (as_jump e c t f) = as_jump e c t f
frame-IsTerminated cfg i b (as_fallthrough e n c t f) = as_fallthrough e n c t f

to_cfg-IsWellFormed : (s : Entries) → IsState s → 0 < length s.1 → IsWellFormed (to_cfg s)
unfolding block
to_cfg-IsWellFormed s st pos = record {
  exit_inside = st.exit;
  has_entry = pos;
  entries_inside = st.entries;
  edges_inside = inside;
  terminated = λ i hi. frame-IsTerminated (to_cfg s) i _ (st.good i hi).terminated;
}
  where
    inside :
        (b c : ℕ) → b < block_count (to_cfg s) → Edge (to_cfg s) b c → c < block_count (to_cfg s)
    inside b c lb (true_edge e ne) = rw e at ((st.good b lb).on_true (λ z. ne (sym e ∙ z)))
    inside b c lb (false_edge e ne) = rw e at ((st.good b lb).on_false (λ z. ne (sym e ∙ z)))

-- The graph before the clean-up is well formed, and has fewer blocks than there are indices.
pub build_graph-IsWellFormed :
    (ir : Program) (g : Cfg)
    → node_count ir ≤ no_node
    → build_graph ir ≡ some (some g)
    → IsWellFormed g × (block_count g < no_node)
unfolding build_graph same_role start_entries
build_graph-IsWellFormed ir g fits h =
    elim (Bool-cases
      ((new_block (a_block exit no_node no_node no_node no_node) no_blocks).0 == no_node)) [
        | inl none_left ↦ let k : some none ≡ some (some g) = rw none_left at h in cc
        | inr room ↦
            let entry = build_entry ir ir.root EdgeRole.statement true start_entries in
            let F = build_functions ir (node_count ir) 0 in
            let G : Entries → Option (Option Cfg) = λ s. some (some (to_cfg s)) in
            let h' : (entry >>= λ r. unless_failed r F >>= λ q. unless_failed q G) ≡ some (some g) =
              rw room at h in
            let (o, eo, k) =
              bind-some entry (λ r. unless_failed r F >>= λ q. unless_failed q G) (some g) h' in
            let (q, eq, k') = bind-some (unless_failed o F) (λ q. unless_failed q G) (some g) k in
            go o q eo eq k'
      ]
  where
    go :
        (o q : Option Entries)
        → build_entry ir ir.root EdgeRole.statement true start_entries ≡ some o
        → unless_failed o (build_functions ir (node_count ir) 0) ≡ some q
        → unless_failed {B = Cfg} q (λ s. some (some (to_cfg s))) ≡ some (some g)
        → IsWellFormed g × (block_count g < no_node)
    go none none eo eq k = cc
    go none (some s) eo eq k = cc
    go (some s) none eo eq k = cc
    go (some s) (some s') eo eq k =
        let w =
          build_entry-IsState ir fits ir.root EdgeRole.statement true start_entries s refl
            start-IsState eo in
        let z = build_functions-IsState ir fits (node_count ir) 0 s s' w.0 w.1 eq in
        let same : to_cfg s' ≡ g = cc in
        subst (λ (x : Cfg). IsWellFormed x × (block_count x < no_node)) same
          (to_cfg-IsWellFormed s' z.0 z.1, Fits-count s'.0 z.0.fits)

-- How the build of a valid program ends, where the graph of its statements is `o`.
pub data Outcome (ir : Program) : Option Cfg → Build → Type 0 where
  -- a `break` or `continue` outside a loop, or too many blocks
  no_graph : Outcome ir none refused
  -- no path of the simplified graph leads to the exit
  no_exit :
      {g : Cfg}
      → IsWellFormed g
      → ¬ Reached (simplify_constant_branches ir g) g.exit_block
      → Outcome ir (some g) refused
  cleaned :
      {g : Cfg} (r : ℕ → Bool)
      → IsWellFormed g
      → Reached (simplify_constant_branches ir g) g.exit_block
      → IsReach (simplify_constant_branches ir g) r
      → IsPruned
          (simplify_constant_branches ir g)
          r
          (rename_cfg r (simplify_constant_branches ir g))
      → IsWellFormed (rename_cfg r (simplify_constant_branches ir g))
      → Outcome ir (some g) (built (rename_cfg r (simplify_constant_branches ir g)))

-- On a valid program of no more nodes than there are indices the build ends. It fails where the graph of
-- the statements cannot be made, or where no path of that graph, its branches on literals folded, leads
-- to the exit; it returns the blocks that are reached, in order, as a well-formed graph elsewhere.
pub vnt_cfg_build-Outcome :
    (ir : Program)
    → vnt_ir_validate ir ≡ true
    → node_count ir ≤ no_node
    → (o : Option Cfg) × (build_graph ir ≡ some o) × Outcome ir o (vnt_cfg_build ir)
unfolding vnt_cfg_build simplify_constant_branches
vnt_cfg_build-Outcome ir valid fits =
    let (o, e) = build_graph-Ends ir (vnt_ir_validate-IsForest ir valid) in
    (o, e, rw (valid, e) (go o e))
  where
    go :
        (o : Option Cfg)
        → build_graph ir ≡ some o
        → Outcome ir o (elim o [ none ↦ refused | some cfg ↦ clean_up ir cfg ])
    go none e = no_graph
    go (some g) e =
        let well = build_graph-IsWellFormed ir g fits e in
        let (r, search, cases) = clean_up_cases ir g well.0 (omega (arith, well.1)) in
        elim cases [
          | inl (p, made, kept, w) ↦ rw made (cleaned r well.0 p search kept w)
          | inr (no_path, gone) ↦ rw gone (no_exit well.0 no_path)
        ]
