-- ===== src/Cfg/Ends.antt =====
-- The building of a graph in src/compiler/cfg.c ends, on a program whose links lead downwards.
use vnt.Base.{
  ℕ, zero, suc, ◌+◌, ◌≤◌, ◌<◌, ◌≡◌, refl, subst, ◌≢◌, inl, inr, Bool, true, false, ◌||◌, Option,
  none, some, List, [], ◌∷◌, arith, leb, ◌==◌, if◌then◌else◌, Bool-cases, All,
}
use vnt.Ir.Node.{program, if_op, while_op, Opcode, EdgeRole, Program, no_node, node, node_count}
use vnt.Ir.Forest.{IsForest}
use vnt.Cfg.Effects.{◌>>=◌, child_role}
use vnt.Cfg.Build.{
  Builder, Statement, Entries, is_item, items_from, build_items, build_list, build_sequence,
  unless_failed, build_by, build_statement, build_entry, build_functions, is_function, build_graph,
}

abbrev pub Ends {ℓ} : {A : Type ℓ} → Option A → Type ℓ
Ends {A} o = (a : A) × (o ≡ some a)

pub Ends-bind {ℓ κ} :
    {A : Type ℓ} {B : Type κ} (o : Option A) (f : A → Option B)
    → Ends o
    → ((a : A) → Ends (f a))
    → Ends (o >>= f)
Ends-bind none f h k = cc
Ends-bind (some a) f h k = k a

-- The same, with what is known of the first result.
pub Ends-bind_eq {ℓ κ} :
    {A : Type ℓ} {B : Type κ} (o : Option A) (f : A → Option B)
    → Ends o
    → ((a : A) → o ≡ some a → Ends (f a))
    → Ends (o >>= f)
Ends-bind_eq none f h k = cc
Ends-bind_eq (some a) f h k = k a refl

pub Ends-if {ℓ} :
    {A : Type ℓ} (b : Bool) (x y : Option A) → Ends x → Ends y → Ends (if b then x else y)
Ends-if true x y h k = h
Ends-if false x y h k = k

Ends-unless :
    {B : Type 0} (r : Option Entries) (f : Entries → Option (Option B))
    → ((s : Entries) → Ends (f s))
    → Ends (unless_failed r f)
Ends-unless none f h = (_, refl)
Ends-unless (some s) f h = h s

module _ (ir : Program) (t : IsForest ir) where
  -- The items of a chain, whose ranks lie below a bound on that of its first node.
  items_from-Ends :
      (role : EdgeRole) (skip : Bool) (bound fuel c : ℕ)
      → (c ≢ no_node → t.rank c < bound)
      → (c ≢ no_node → t.rank c + 1 < fuel)
      → 0 < fuel
      → (cs : List ℕ) × (items_from ir role skip fuel c ≡ some cs) × All (λ x. t.rank x < bound) cs
  unfolding items_from
  items_from-Ends role skip bound zero c hb hf pos = absurd (omega arith)
  items_from-Ends role skip bound (suc fuel) c hb hf pos = elim (Bool-cases (c == no_node)) [
    | inl end ↦ ([], rw end, tt)
    | inr on ↦
        let ne : c ≢ no_node = ground arith in
        let rb = hb ne in
        let rf = hf ne in
        let (cs, e, a) =
          items_from-Ends role skip bound fuel (node ir c).next_sibling
            (λ more. omega (arith, t.sibling c more)) (λ more. omega (arith, t.sibling c more))
            (omega arith) in
        elim (Bool-cases (is_item role skip (node ir c))) [
          | inl item ↦ (c ∷ cs, rw (on, item, e), (rb, a))
          | inr other ↦ (cs, rw (on, other) e, a)
        ]
  ]

  module _ (statement : Statement) (bound : ℕ)
      (ends : (c next brk cont : ℕ) (b : Builder)
        → t.rank c < bound
        → Ends (statement c next brk cont b)) where
    build_items-Ends :
        (brk cont : ℕ) (cs : List ℕ) (next : ℕ) (b : Builder)
        → All (λ x. t.rank x < bound) cs
        → Ends (build_items statement brk cont cs next b)
    unfolding build_items
    build_items-Ends brk cont [] next b a = ((next, b), refl)
    build_items-Ends brk cont (c ∷ cs) next b a =
        Ends-bind (build_items statement brk cont cs next b) _
          (build_items-Ends brk cont cs next b a.1)
          (λ r. Ends-if r.1.failed _ _ (r, refl) (ends c r.0 brk cont r.1 a.0))

    build_list-Ends :
        (brk cont : ℕ) (cs : List ℕ) (next : ℕ) (b : Builder)
        → All (λ x. t.rank x < bound) cs
        → Ends (build_list statement brk cont cs next b)
    unfolding build_list
    build_list-Ends brk cont [] next b a = (_, refl)
    build_list-Ends brk cont (c ∷ cs) next b a =
        Ends-bind _ _ (build_items-Ends brk cont (c ∷ cs) next b a) (λ r. (_, refl))

    build_sequence-Ends :
        (brk cont parent : ℕ) (role : EdgeRole) (next : ℕ) (skip : Bool) (b : Builder)
        → t.rank parent ≤ bound
        → Ends (build_sequence statement brk cont ir parent role next skip b)
    unfolding build_sequence
    build_sequence-Ends brk cont parent role next skip b h =
        let fc = (node ir parent).first_child in
        let (cs, e, a) =
          items_from-Ends role skip bound (suc (node_count ir)) fc
            (λ ne. omega (arith, t.child parent ne))
            (λ ne. omega (arith, t.child parent ne, t.bound parent)) (omega arith) in
        Ends-if (leb (node_count ir) parent) _ _ (_, refl)
          (Ends-bind_eq (items_from ir role skip (suc (node_count ir)) fc)
            (λ xs. build_list statement brk cont xs next b) (cs, e)
            (λ xs ex.
              build_list-Ends brk cont xs next b
                (let same : cs ≡ xs = cc in subst (λ ys. All (λ x. t.rank x < bound) ys) same a)))

  build_by-Ends :
      (again : Statement) (op : Opcode) (c next brk cont : ℕ) (b : Builder)
      → ((brk cont : ℕ) (role : EdgeRole) (next : ℕ) (b : Builder)
          → Ends (build_sequence again brk cont ir c role next false b))
      → Ends (build_by ir again op c next brk cont b)
  unfolding build_by
  build_by-Ends again program c next brk cont b run = run brk cont _ next b
  build_by-Ends again if_op c next brk cont b run =
      Ends-if (child_role ir c EdgeRole.condition == no_node) _ _ (_, refl)
        (Ends-bind _ _ (run brk cont _ next b)
          (λ r. Ends-bind _ _ (run brk cont _ next r.1) (λ q. (_, refl))))
  build_by-Ends again while_op c next brk cont b run =
      Ends-if (child_role ir c EdgeRole.condition == no_node) _ _ (_, refl)
        (Ends-if _ _ _ (_, refl) (Ends-bind _ _ (run next _ _ _ _) (λ r. (_, refl))))
  build_by-Ends again _ c next brk cont b run = (_, refl)

  build_statement-Ends :
      (fuel c next brk cont : ℕ) (b : Builder)
      → t.rank c < fuel
      → Ends (build_statement ir fuel c next brk cont b)
  unfolding build_statement
  build_statement-Ends zero c next brk cont b h = absurd (omega arith)
  build_statement-Ends (suc fuel) c next brk cont b h =
      Ends-if (b.failed || leb (node_count ir) c) _ _ (_, refl)
        (build_by-Ends (build_statement ir fuel) (node ir c).opcode c next brk cont b
          (λ brk' cont' role next' b'.
            build_sequence-Ends (build_statement ir fuel) fuel
              (λ d n k l x r. build_statement-Ends fuel d n k l x r) brk' cont' c role next' false
              b' (omega arith)))

  pub build_entry-Ends :
      (parent : ℕ) (role : EdgeRole) (skip : Bool) (s : Entries)
      → Ends (build_entry ir parent role skip s)
  unfolding build_entry
  build_entry-Ends parent role skip s =
      Ends-bind _ _
        (build_sequence-Ends (build_statement ir (suc (node_count ir))) (suc (node_count ir))
          (λ d n k l x r. build_statement-Ends (suc (node_count ir)) d n k l x r) no_node no_node
          parent role s.0.exit_block skip s.0 (omega (arith, t.bound parent)))
        (λ r. (_, refl))

  pub build_functions-Ends : (n i : ℕ) (s : Entries) → Ends (build_functions ir n i s)
  unfolding build_functions
  build_functions-Ends zero i s = (_, refl)
  build_functions-Ends (suc n) i s =
      Ends-if (is_function (node ir i)) _ _
        (Ends-bind _ _ (build_entry-Ends i EdgeRole.body false s)
          (λ r. Ends-unless r _ (build_functions-Ends n (i + 1))))
        (build_functions-Ends n (i + 1) s)

  pub build_graph-Ends : Ends (build_graph ir)
  unfolding build_graph
  build_graph-Ends =
      Ends-if _ _ _ (_, refl)
        (Ends-bind _ _ (build_entry-Ends ir.root EdgeRole.statement true _) (λ r.
          Ends-bind _ _ (Ends-unless r _ (build_functions-Ends (node_count ir) 0))
            (λ q. Ends-unless q _ (λ s. (_, refl)))))
