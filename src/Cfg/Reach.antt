-- ===== src/Cfg/Reach.antt =====
-- The search of `prune_unreachable_blocks` in src/compiler/cfg.c finds the blocks that are reached.
use vnt.Base.{
  ℕ, zero, suc, ◌+◌, ◌<◌, ◌≡◌, refl, sym, ap, ◌∙◌, subst, ◌≢◌, ◌↔◌, ◌⊎◌, inl, inr, true, false,
  some, List, [], ◌∷◌, arith, leb, ◌==◌, ==_iff, Bool-cases, length, All, count_below,
  count_below-le, count_below-mark, count_below_none,
}
use vnt.Ir.Node.{no_node}
use vnt.Ir.Walk.{In}
use vnt.Cfg.Graph.{Cfg, block, block_count, Edge, true_edge, false_edge, HasEdgesInside}
use vnt.Cfg.Prune.{Search, reach, reach_entries, reach_successor, reach_round, reach_all}

-- A path leads from an entry to a block.
pub data Reached (cfg : Cfg) : ℕ → Type 0 where
  at_entry : {e : ℕ} → In e cfg.entries → Reached cfg e
  along : {b c : ℕ} → Reached cfg b → Edge cfg b c → Reached cfg c

module _ (count : ℕ) (P : ℕ → Type 0) where
  -- What a step of the search does, where `P` holds for what it may mark.
  pub record Extends (s t : Search) : Type 0 where
    pub marks : (i : ℕ) → s.reachable i ≡ true → t.reachable i ≡ true
    pub stays : (i : ℕ) → In i s.stack → In i t.stack
    pub fresh : (i : ℕ) → t.reachable i ≡ true → (s.reachable i ≡ true) ⊎ In i t.stack × P i
    pub queued : (i : ℕ) → In i t.stack → In i s.stack ⊎ (t.reachable i ≡ true)
    pub balance :
        count_below t.reachable count + length s.stack
        ≡ count_below s.reachable count + length t.stack

  pub Extends-refl : (s : Search) → Extends s s
  Extends-refl s = record {
    marks = λ i h. h;
    stays = λ i h. h;
    fresh = λ i h. inl h;
    queued = λ i h. inl h;
    balance = refl;
  }

  pub Extends-trans : {s t u : Search} → Extends s t → Extends t u → Extends s u
  Extends-trans f g = record {
    marks = λ i h. g.marks i (f.marks i h);
    stays = λ i h. g.stays i (f.stays i h);
    fresh = λ i h. elim (g.fresh i h) [
      | inl old ↦ elim (f.fresh i old) [ inl older ↦ inl older | inr k ↦ inr (g.stays i k.0, k.1) ]
      | inr k ↦ inr k
    ];
    queued = λ i h. elim (g.queued i h) [
      | inl old ↦ elim (f.queued i old) [ inl older ↦ inl older | inr k ↦ inr (g.marks i k) ]
      | inr k ↦ inr k
    ];
    balance = omega (arith, f.balance, g.balance);
  }

  pub reach-Extends :
      (c : ℕ) (s : Search)
      → c < count
      → P c
      → Extends s (reach c s) × ((reach c s).reachable c ≡ true)
  unfolding reach
  reach-Extends c s lt p = elim (Bool-cases (s.reachable c)) [
    | inl old ↦ rw old (Extends-refl s, old)
    | inr new ↦ rw new (
      record {
        marks = λ i h. ground arith;
        stays = λ i h. inr h;
        fresh = λ i h. elim (Bool-cases (i == c)) [
          | inl at ↦ let e = (==_iff i c).0 at in inr (inl e, rw e p)
          | inr other ↦ inl (ground arith)
        ];
        queued = λ i h. elim h [ inl e ↦ inr (ground arith) | inr m ↦ inl m ];
        balance = omega (arith, count_below-mark s.reachable c count lt new);
      },
      ground arith,
    )
  ]

  pub reach_entries-Extends :
      (es : List ℕ) (s : Search)
      → All (λ e. e < count) es
      → ((e : ℕ) → In e es → P e)
      → (t : Search) × (reach_entries count es s ≡ some t)
        × Extends s t
        × ((e : ℕ) → In e es → t.reachable e ≡ true)
  unfolding reach_entries
  reach_entries-Extends [] s a p = (s, refl, Extends-refl s, λ e m. elim m [ ])
  reach_entries-Extends (e ∷ es) s a p =
      let one = reach-Extends e s a.0 (p e (inl refl)) in
      let (t, same, f, marked) = reach_entries-Extends es (reach e s) a.1 (λ x m. p x (inr m)) in
      let off : leb count e ≡ false = let lt = a.0 in ground arith in
      (
        t,
        rw off same,
        Extends-trans one.0 f,
        λ x m. elim m [ inl at ↦ rw at (f.marks e one.1) | inr m ↦ marked x m ],
      )

  pub reach_successor-Extends :
      (c : ℕ) (s : Search)
      → (c ≢ no_node → (c < count) × P c)
      → (t : Search) × (reach_successor count c s ≡ some t)
        × Extends s t
        × (c ≢ no_node → t.reachable c ≡ true)
  unfolding reach_successor
  reach_successor-Extends c s p = elim (Bool-cases (c == no_node)) [
    | inl missing ↦
        (s, rw missing, Extends-refl s, λ ne. absurd (ne ((==_iff c no_node).0 missing)))
    | inr there ↦
        let k = p (ground arith) in
        let one = reach-Extends c s k.0 k.1 in
        let off : leb count c ≡ false = let lt = k.0 in ground arith in
        (reach c s, rw (there, off), one.0, λ ne. one.1)
  ]

module _ (cfg : Cfg) (inside : HasEdgesInside cfg) where
  abbrev Sound : ℕ → Type 0
  Sound i = Reached cfg i × (i < block_count cfg)

  abbrev Later : Search → Search → Type 0
  Later s t = (i : ℕ) → s.reachable i ≡ true → t.reachable i ≡ true

  record Inv (s : Search) : Type 0 where
    sound : (i : ℕ) → s.reachable i ≡ true → Sound i
    queued : (i : ℕ) → In i s.stack → s.reachable i ≡ true
    closed : (i j : ℕ) → s.reachable i ≡ true → Edge cfg i j → In i s.stack ⊎ (s.reachable j ≡ true)

  -- One round: a block off the stack, and its successors marked.
  Inv-round :
      (s t : Search) (at : ℕ) (stack : List ℕ)
      → s.stack ≡ at ∷ stack
      → Inv s
      → Extends (block_count cfg) Sound (record s { stack = stack }) t
      → ((j : ℕ) → Edge cfg at j → t.reachable j ≡ true)
      → Inv t
  Inv-round s t at stack e inv f edges = record {
    sound = λ i h. elim (f.fresh i h) [ inl old ↦ inv.sound i old | inr k ↦ k.1 ];
    queued = λ i h. elim (f.queued i h) [
      | inl m ↦ f.marks i (inv.queued i (rw e (inr m)))
      | inr on ↦ on
    ];
    closed = λ i j h edge. elim (f.fresh i h) [
      | inl old ↦ elim (inv.closed i j old edge) [
        | inl m ↦ elim (subst (In i) e m) [
          | inl here ↦ inr (edges j (subst (λ x. Edge cfg x j) here edge))
          | inr m ↦ inl (f.stays i m)
        ]
        | inr on ↦ inr (f.marks j on)
      ]
      | inr k ↦ inl k.0
    ];
  }

  reach_all-Inv :
      (fuel : ℕ) (s : Search)
      → Inv s
      → block_count cfg + length s.stack < fuel + count_below s.reachable (block_count cfg)
      → (t : Search) × (reach_all cfg fuel s ≡ some t) × Inv t × (t.stack ≡ []) × Later s t
  unfolding reach_all reach_round
  reach_all-Inv zero s inv h = absurd (omega (arith, count_below-le s.reachable (block_count cfg)))
  reach_all-Inv (suc fuel) s inv h = go s.stack refl (λ t. reach_all-Inv fuel t)
    where
      go :
          (stack : List ℕ)
          → s.stack ≡ stack
          → ((t : Search)
              → Inv t
              → block_count cfg + length t.stack < fuel + count_below t.reachable (block_count cfg)
              → (u : Search) × (reach_all cfg fuel t ≡ some u) × Inv u × (u.stack ≡ []) × Later t u)
          → (t : Search) × (reach_round cfg (reach_all cfg fuel) s stack ≡ some t)
            × Inv t
            × (t.stack ≡ [])
            × Later s t
      go [] e again = (s, refl, inv, e, λ i h. h)
      go (at ∷ stack) e again =
          let popped : Search = record s { stack = stack } in
          let here = inv.sound at (inv.queued at (rw e (inl refl))) in
          let to : (c : ℕ) → Edge cfg at c → (c < block_count cfg) × Sound c = λ c edge.
            (inside.inside at c here.1 edge, (along here.0 edge, inside.inside at c here.1 edge)) in
          let one =
            reach_successor-Extends (block_count cfg) Sound (block cfg at).true_successor popped
              (λ ne. to _ (true_edge refl ne)) in
          let two =
            reach_successor-Extends (block_count cfg) Sound (block cfg at).false_successor one.0
              (λ ne. to _ (false_edge refl ne)) in
          let f = Extends-trans (block_count cfg) Sound one.2 two.2 in
          let edges : (j : ℕ) → Edge cfg at j → two.0.reachable j ≡ true =
            λ j edge. edge_marked one.0 two.0 j edge (λ ne. two.2.marks _ (one.3 ne)) two.3 in
          let size = ap length e in
          let rest =
            again two.0 (Inv-round s two.0 at stack e inv f edges)
              (omega (arith, f.balance, size)) in
          (rest.0, rw (one.1, two.1) rest.1, rest.2, rest.3, λ i h. rest.4 i (f.marks i h))
        where
          edge_marked :
              (t u : Search) (j : ℕ)
              → Edge cfg at j
              → ((block cfg at).true_successor ≢ no_node
                  → u.reachable (block cfg at).true_successor ≡ true)
              → ((block cfg at).false_successor ≢ no_node
                  → u.reachable (block cfg at).false_successor ≡ true)
              → u.reachable j ≡ true
          edge_marked t u j (true_edge same ne) on_true on_false =
              subst (λ x. u.reachable x ≡ true) same (on_true (λ k. ne (sym same ∙ k)))
          edge_marked t u j (false_edge same ne) on_true on_false =
              subst (λ x. u.reachable x ≡ true) same (on_false (λ k. ne (sym same ∙ k)))

  complete :
      (t : Search)
      → Inv t
      → t.stack ≡ []
      → ((e : ℕ) → In e cfg.entries → t.reachable e ≡ true)
      → {i : ℕ} → Reached cfg i
      → t.reachable i ≡ true
  complete t inv e marked (at_entry m) = marked _ m
  complete t inv e marked (along {b} {c} p edge) =
      elim (inv.closed b c (complete t inv e marked p) edge) [
        | inl m ↦ elim (subst (In b) e m) [ ]
        | inr on ↦ on
      ]

pub All-at : (P : ℕ → Type 0) (xs : List ℕ) → All P xs → (x : ℕ) → In x xs → P x
All-at P [] a x m = elim m [ ]
All-at P (y ∷ xs) a x (inl e) = rw e a.0
All-at P (y ∷ xs) a x (inr m) = All-at P xs a.1 x m

abbrev pub start : Search
start = record { reachable = λ i. false; stack = [] }

-- The search ends, and its flags are those of the blocks that are reached.
pub reach_all-Reached :
    (cfg : Cfg)
    → HasEdgesInside cfg
    → All (λ e. e < block_count cfg) cfg.entries
    → (s t : Search) × (reach_entries (block_count cfg) cfg.entries start ≡ some s)
      × (reach_all cfg (suc (block_count cfg)) s ≡ some t)
      × ((i : ℕ) → (t.reachable i ≡ true) ↔ Reached cfg i)
      × ((i : ℕ) → t.reachable i ≡ true → i < block_count cfg)
reach_all-Reached cfg inside a =
    let (s, e, f, marked) =
      reach_entries-Extends (block_count cfg) (Sound cfg inside) cfg.entries start a
        (λ e m. (at_entry m, All-at (λ e. e < block_count cfg) cfg.entries a e m)) in
    let inv : Inv cfg inside s = record {
      sound = λ i h. elim (f.fresh i h) [ inl old ↦ cc | inr k ↦ k.1 ];
      queued = λ i h. elim (f.queued i h) [ inl m ↦ elim m [ ] | inr on ↦ on ];
      closed = λ i j h edge. elim (f.fresh i h) [ inl old ↦ cc | inr k ↦ inl k.0 ];
    } in
    let none_yet = count_below_none (block_count cfg) in
    let (t, ends, last, empty, later) =
      reach_all-Inv cfg inside (suc (block_count cfg)) s inv (omega (arith, f.balance)) in
    (
      s,
      t,
      e,
      ends,
      λ i.
          (λ h. (last.sound i h).0, complete cfg inside t last empty (λ x m. later x (marked x m))),
      λ i h. (last.sound i h).1,
    )
