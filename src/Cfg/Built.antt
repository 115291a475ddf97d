-- ===== src/Cfg/Built.antt =====
-- The statements' blocks that src/compiler/cfg.c builds are good, where the building does not fail.
use vnt.Base.{
  ℕ, zero, suc, ◌/◌, ◌<◌, ◌≡◌, refl, sym, ap, ◌∙◌, subst, ◌≢◌, inl, inr, Bool, true, false, ◌||◌,
  Option, none, some, List, [], ◌∷◌, arith, ltb, leb, ◌==◌, if◌then◌else◌, ltb→lt, Bool-cases,
  if_rule, length, All,
}
use vnt.Ir.Node.{same_role, node-outside, blank_node, EdgeRole, Program, no_node, node, node_count}
use vnt.Cfg.Graph.{Block}
use vnt.Cfg.Effects.{◌>>=◌}
use vnt.Cfg.Build.{
  Builder, Statement, is_item, items_from, build_items, build_list, finish, build_sequence,
  new_block, block_size, grown, fail,
}
use vnt.Cfg.Placed.{count, Fits, Adds, Adds-nothing, Adds-then}

pub bind-some {ℓ κ} :
    {A : Type ℓ} {B : Type κ} (o : Option A) (f : A → Option B) (r : B)
    → (o >>= f) ≡ some r
    → (a : A) × (o ≡ some a) × (f a ≡ some r)
bind-some none f r h = cc
bind-some (some a) f r h = (a, refl, h)

-- A failed builder stays failed.
pub new_block-failed : (x : Block) (b : Builder) → b.failed ≡ true → (new_block x b).1.failed ≡ true
unfolding new_block
new_block-failed x b h =
    if_rule (λ (r : ℕ × Builder). r.1.failed ≡ true) (length b.blocks == b.capacity)
      (λ _.
        if_rule (λ (r : ℕ × Builder). r.1.failed ≡ true)
          (ltb (grown b.capacity) b.capacity || ltb (no_node / block_size) (grown b.capacity))
          (λ _. refl) (λ _. h))
      (λ _. h)

build_items-failed :
    (st : Statement) (brk cont : ℕ) (cs : List ℕ) (next : ℕ) (b : Builder) (r : ℕ × Builder)
    → b.failed ≡ true
    → build_items st brk cont cs next b ≡ some r
    → r.1.failed ≡ true
unfolding build_items
build_items-failed st brk cont [] next b r f h =
    let e : (next, b) ≡ r = cc in subst (λ q. q.1.failed ≡ true) e f
build_items-failed st brk cont (c ∷ cs) next b r f h =
    let (q, eq, k) = bind-some (build_items st brk cont cs next b) _ r h in
    let fq = build_items-failed st brk cont cs next b q f eq in
    let e : q ≡ r = ground arith in subst (λ x. x.1.failed ≡ true) e fq

module _ (st : Statement) (brk cont : ℕ) where
  build_list-failed :
      (cs : List ℕ) (next : ℕ) (b : Builder) (r : ℕ × Builder)
      → b.failed ≡ true
      → build_list st brk cont cs next b ≡ some r
      → r.1.failed ≡ true
  unfolding build_list
  build_list-failed [] next b r f h =
      let e : (next, b) ≡ r = cc in subst (λ (x : ℕ × Builder). x.1.failed ≡ true) e f
  build_list-failed (c ∷ cs) next b r f h =
      let (q, eq, k) =
        bind-some (build_items st brk cont (c ∷ cs) next b) (λ x. some (finish x)) r h in
      let fq = build_items-failed st brk cont (c ∷ cs) next b q f eq in
      let e : finish q ≡ r = cc in subst (λ (x : ℕ × Builder). x.1.failed ≡ true) e fq

  pub build_sequence-failed :
      (ir : Program) (parent : ℕ) (role : EdgeRole) (next : ℕ) (skip : Bool) (b : Builder)
      (r : ℕ × Builder)
      → b.failed ≡ true
      → build_sequence st brk cont ir parent role next skip b ≡ some r
      → r.1.failed ≡ true
  unfolding build_sequence
  build_sequence-failed ir parent role next skip b r f =
      if_rule (λ o. o ≡ some r → r.1.failed ≡ true) (leb (node_count ir) parent)
        (λ _ h.
          let e : (no_node, fail b) ≡ r = cc in
          subst (λ (x : ℕ × Builder). x.1.failed ≡ true) e refl)
        λ _ h.
          let (cs, _, k) =
            bind-some (items_from ir role skip (suc (node_count ir)) (node ir parent).first_child)
              (λ xs. build_list st brk cont xs next b) r h in
          build_list-failed cs next b r f k

-- Where a part is built: what follows it and the loop's targets are blocks.
pub record Place (next brk cont : ℕ) (b : Builder) : Type 0 where
  pub next_inside : next < count b
  pub break_inside : brk ≢ no_node → brk < count b
  pub continue_inside : cont ≢ no_node → cont < count b
  pub exit_inside : b.exit_block < count b
  pub fits : Fits b

pub Place-Adds :
    {next brk cont : ℕ} {b : Builder} {r : ℕ × Builder} (next' : ℕ)
    → Place next brk cont b
    → Adds b r
    → next' < count r.1
    → Place next' brk cont r.1
Place-Adds next' p a h = record {
  next_inside = h;
  break_inside = λ ne. omega (arith, p.break_inside ne, a.more);
  continue_inside = λ ne. omega (arith, p.continue_inside ne, a.more);
  exit_inside = omega (arith, p.exit_inside, a.more, a.exit);
  fits = a.fits;
}

-- A result that, where it does not fail, adds to `b`.
abbrev pub Adding : Builder → Option (ℕ × Builder) → Type 0
Adding b o = (r : ℕ × Builder) → o ≡ some r → r.1.failed ≡ false → Adds b r

pub Adding-some :
    (b : Builder) (q : ℕ × Builder) → (q.1.failed ≡ false → Adds b q) → Adding b (some q)
Adding-some b q h r e f = let same : q ≡ r = cc in subst (λ x. Adds b x) same (h (rw same f))

pub Adding-if :
    (b : Builder) (c : Bool) (x y : Option (ℕ × Builder))
    → (c ≡ true → Adding b x)
    → (c ≡ false → Adding b y)
    → Adding b (if c then x else y)
Adding-if b c x y h k = if_rule (Adding b) c h k

-- A sequence is made of nodes of the program: what stands elsewhere has the root's role.
item-lt :
    (ir : Program) (role : EdgeRole) (skip : Bool) (c : ℕ)
    → same_role EdgeRole.root role ≡ false
    → is_item role skip (node ir c) ≡ true
    → c < node_count ir
item-lt ir role skip c other item = elim (Bool-cases (ltb c (node_count ir))) [
  | inl lt ↦ ltb→lt _ _ lt
  | inr out ↦
      let blank = node-outside ir c (ground arith) in
      let k : is_item role skip blank_node ≡ true =
        subst (λ n. is_item role skip n ≡ true) blank item in
      absurd (ground arith)
]

items_from-lt :
    (ir : Program) (role : EdgeRole) (skip : Bool) (fuel c : ℕ) (cs : List ℕ)
    → same_role EdgeRole.root role ≡ false
    → items_from ir role skip fuel c ≡ some cs
    → All (λ x. x < node_count ir) cs
unfolding items_from
items_from-lt ir role skip zero c cs other h = cc
items_from-lt ir role skip (suc fuel) c cs other h = elim (Bool-cases (c == no_node)) [
  | inl end ↦ let e : [] ≡ cs = ground arith in subst (λ xs. All (λ x. x < node_count ir) xs) e tt
  | inr on ↦ elim (Bool-cases (is_item role skip (node ir c))) [
    | inl item ↦
        let h' : (items_from ir role skip fuel (node ir c).next_sibling >>= λ xs. some (c ∷ xs))
            ≡ some cs =
          rw (on, item) at h in
        let (xs, e, k) =
          bind-some (items_from ir role skip fuel (node ir c).next_sibling) (λ xs. some (c ∷ xs)) cs
            h' in
        let same : c ∷ xs ≡ cs = cc in
        subst (λ ys. All (λ x. x < node_count ir) ys) same
          (item-lt ir role skip c other item, items_from-lt ir role skip fuel _ xs other e)
    | inr not_item ↦ items_from-lt ir role skip fuel _ cs other (rw (on, not_item) at h)
  ]
]

module _ (ir : Program) (st : Statement)
    (adding : (c next brk cont : ℕ) (b : Builder)
      → c < node_count ir
      → Place next brk cont b
      → b.failed ≡ false
      → Adding b (st c next brk cont b)) where
  build_items-Adding :
      (brk cont : ℕ) (cs : List ℕ) (next : ℕ) (b : Builder)
      → All (λ x. x < node_count ir) cs
      → Place next brk cont b
      → b.failed ≡ false
      → Adding b (build_items st brk cont cs next b)
  unfolding build_items
  build_items-Adding brk cont [] next b lt p f r h fine =
      Adding-some b (next, b) (λ _. Adds-nothing b next f p.next_inside p.fits) r h fine
  build_items-Adding brk cont (c ∷ cs) next b lt p f r h fine =
      let (q, eq, k) = bind-some (build_items st brk cont cs next b) _ r h in
      elim (Bool-cases q.1.failed) [
        | inl bad ↦ let e : q ≡ r = ground arith in absurd (ground arith)
        | inr good ↦
            let a = build_items-Adding brk cont cs next b lt.1 p f q eq good in
            let k' : st c q.0 brk cont q.1 ≡ some r = ground arith in
            Adds-then a (adding c q.0 brk cont q.1 lt.0 (Place-Adds q.0 p a a.entry) good r k' fine)
      ]

  build_list-Adding :
      (brk cont : ℕ) (cs : List ℕ) (next : ℕ) (b : Builder)
      → All (λ x. x < node_count ir) cs
      → Place next brk cont b
      → b.failed ≡ false
      → Adding b (build_list st brk cont cs next b)
  unfolding build_list
  build_list-Adding brk cont [] next b lt p f r h fine =
      Adding-some b (next, b) (λ _. Adds-nothing b next f p.next_inside p.fits) r h fine
  build_list-Adding brk cont (c ∷ cs) next b lt p f r h fine =
      let (q, eq, k) =
        bind-some (build_items st brk cont (c ∷ cs) next b) (λ x. some (finish x)) r h in
      let e : finish q ≡ r = cc in
      let same : q.1 ≡ r.1 = ap (λ (x : ℕ × Builder). x.1) e in
      let good : q.1.failed ≡ false = rw same fine in
      let a = build_items-Adding brk cont (c ∷ cs) next b lt p f q eq good in
      let whole : finish q ≡ q = rw good in subst (λ (x : ℕ × Builder). Adds b x) (sym whole ∙ e) a

  pub build_sequence-Adding :
      (brk cont parent : ℕ) (role : EdgeRole) (next : ℕ) (skip : Bool) (b : Builder)
      → same_role EdgeRole.root role ≡ false
      → Place next brk cont b
      → b.failed ≡ false
      → Adding b (build_sequence st brk cont ir parent role next skip b)
  unfolding build_sequence
  build_sequence-Adding brk cont parent role next skip b other p f =
      Adding-if b (leb (node_count ir) parent) _ _ (λ _. Adding-some b (no_node, fail b) (λ h. cc))
        λ _ r h fine.
          let (cs, ec, k) =
            bind-some (items_from ir role skip (suc (node_count ir)) (node ir parent).first_child)
              (λ xs. build_list st brk cont xs next b) r h in
          build_list-Adding brk cont cs next b (items_from-lt ir role skip _ _ cs other ec) p f r k
            fine
