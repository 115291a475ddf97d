-- ===== src/Cfg/EffectsExact.antt =====
-- collect_block_effects of src/compiler/cfg.c marks exactly what a block reads and writes.
use vnt.Base.{
  ℕ, ◌≡◌, refl, sym, ◌∙◌, subst, ◌≢◌, ◌↔◌, ◌⊎◌, inl, inr, true, false, not, ◌&&◌, Option, some,
  List, arith, ◌==◌, if◌then◌else◌, ==_iff, Bool-cases,
}
use vnt.Ir.Node.{
  Name, Opcode, EdgeRole, Program, no_node, node, text_of, text, variable, variable_decl, reassign,
  print, return, assign,
}
use vnt.Ir.Forest.{IsForest}
use vnt.Cfg.Graph.{Block}
use vnt.Cfg.Effects.{
  Row, is_variable, child_role, Effects, reads, defines, effects_by, collect_block_effects,
}
use vnt.Cfg.Analysis.{no_effects}
use vnt.Cfg.Reads.{
  Occurs, itself, below, Marks, Marks-nothing, Marks-map, Marks-variable,
  collect_expression_reads-Reads,
}
use vnt.Cfg.Built.{bind-some}
use vnt.Cfg.Collected.{text_of_iff}
use vnt.Cfg.Access.{Operand, InOperand, StatementReads, StatementWrites, BlockReads, BlockWrites}
use vnt.Cfg.Operands.{child_role-Operand, Operand-child_role}

is_variable-eq : (o : Opcode) → is_variable o ≡ true → o ≡ variable
is_variable-eq variable h = refl
is_variable-eq _ h = cc

module _ (ir : Program) (names : List Name) (t : IsForest ir) where
  Marks-then :
      (O P : Name → Type 0) {a b c : Row}
      → Marks ir names O a b
      → Marks ir names P b c
      → Marks ir names (λ x. O x ⊎ P x) a c
  Marks-then O P m n = record {
    kept = λ v h. n.kept v (m.kept v h);
    marked = λ x h ne. elim h [ inl o ↦ n.kept _ (m.marked x o ne) | inr p ↦ n.marked x p ne ];
    origin = λ v h. elim (n.origin v h) [
      | inr new ↦ inr (new.0, inr new.1, new.2)
      | inl before ↦ elim (m.origin v before) [
        | inl old ↦ inl old
        | inr new ↦ inr (new.0, inl new.1, new.2)
      ]
    ];
  }

  -- What a step of the code adds to the rows of a block.
  pub record Adds (P Q : Name → Type 0) (e e' : Effects) : Type 0 where
    pub uses : Marks ir names P e.uses e'.uses
    pub defs : Marks ir names Q e.defs e'.defs

  nothing : (u : Row) → Marks ir names (λ x. ⊥) u u
  nothing u = Marks-nothing ir names (λ x. ⊥) u (λ x o. o)

  reads-Adds :
      (n : ℕ) (e e' : Effects)
      → reads ir names n e ≡ some e'
      → Adds (Occurs ir names n) (λ x. ⊥) e e'
  reads-Adds n e e' h =
      let (u, eu, m) = collect_expression_reads-Reads ir names t n e.uses in
      let same : record e { uses = u } ≡ e' = let k = rw eu at h in cc in
      subst (λ x. Adds (Occurs ir names n) (λ y. ⊥) e x) same
        (record { uses = m; defs = nothing e.defs })

  Occurs-node : (n : ℕ) (x : Name) → Occurs ir names n x → n ≢ no_node
  Occurs-node n x (itself lt ne v e) = ne
  Occurs-node n x (below lt ne v o) = ne

  -- The operand that the code finds stands for all operands with the role.
  operand-Adds :
      (role : EdgeRole) (i : ℕ) (e e' : Effects)
      → reads ir names (child_role ir i role) e ≡ some e'
      → Adds (InOperand ir names role i) (λ x. ⊥) e e'
  operand-Adds role i e e' h =
      let a = reads-Adds (child_role ir i role) e e' h in
      record {
        uses =
            Marks-map ir names _ (InOperand ir names role i) e.uses e'.uses
              (λ x o. (child_role ir i role, child_role-Operand ir t role i (Occurs-node _ x o), o))
              (λ x p.
                let k = Operand-child_role ir t role i p.0 p.1 in
                subst (λ d. Occurs ir names d x) (sym k.0) p.2)
              a.uses;
        defs = a.defs;
      }

  writes-Adds :
      (o : Option Name) (e : Effects) → Adds (λ x. ⊥) (λ x. o ≡ some x) e (defines ir names o e)
  writes-Adds o e = record { uses = nothing e.uses; defs = Marks-variable ir names e.defs o }

  Adds-map :
      {P P' Q Q' : Name → Type 0} {e e' : Effects}
      → ((x : Name) → P x ↔ P' x)
      → ((x : Name) → Q x ↔ Q' x)
      → Adds P Q e e'
      → Adds P' Q' e e'
  Adds-map {P} {P'} {Q} {Q'} {e} {e'} p q a = record {
    uses = Marks-map ir names P P' e.uses e'.uses (λ x. (p x).0) (λ x. (p x).1) a.uses;
    defs = Marks-map ir names Q Q' e.defs e'.defs (λ x. (q x).0) (λ x. (q x).1) a.defs;
  }

  Adds-then :
      {P P' Q Q' : Name → Type 0} {a b c : Effects}
      → Adds P Q a b
      → Adds P' Q' b c
      → Adds (λ x. P x ⊎ P' x) (λ x. Q x ⊎ Q' x) a c
  Adds-then {P} {P'} {Q} {Q'} f g = record {
    uses = Marks-then P P' f.uses g.uses;
    defs = Marks-then Q Q' f.defs g.defs;
  }

  text_iff :
      (i : ℕ) (x : Name) → (text_of (node ir i) ≡ some x) ↔ ((node ir i).value ≡ text (some x))
  unfolding text_of
  text_iff i x = text_of_iff (node ir i).value x

  -- A declaration, without a value and with one.
  declares-Adds :
      (i : ℕ) (e e' : Effects)
      → effects_by ir names variable_decl i e ≡ some e'
      → Adds
          (StatementReads ir names variable_decl i)
          (StatementWrites ir names variable_decl i)
          e
          e'
  unfolding effects_by
  declares-Adds i e e' h =
      let value = child_role ir i EdgeRole.value in
      let R = StatementReads ir names variable_decl i in
      let W = StatementWrites ir names variable_decl i in
      elim (Bool-cases (value == no_node)) [
        | inl no_value ↦
            let gone : value ≡ no_node = (==_iff value no_node).0 no_value in
            let lost : (d : ℕ) → ¬ Operand ir EdgeRole.value i d = λ d op.
              let k = Operand-child_role ir t EdgeRole.value i d op in k.1 (sym k.0 ∙ gone) in
            let same : e ≡ e' = let k = rw no_value at h in cc in
            subst (λ z. Adds R W e z) same
              (record {
                uses = Marks-nothing ir names R e.uses (λ x r. lost r.0 r.1);
                defs = Marks-nothing ir names W e.defs (λ x w. lost w.0.0 w.0.1);
              })
        | inr valued ↦
            let (m, em, k) =
              bind-some (reads ir names value e)
                (λ e1. some (defines ir names (text_of (node ir i)) e1)) e' (rw valued at h) in
            let same : defines ir names (text_of (node ir i)) m ≡ e' = cc in
            let there = child_role-Operand ir t EdgeRole.value i (ground arith) in
            subst (λ z. Adds R W e z) same
              (Adds-map (λ x. (λ a. elim a [ inl p ↦ p | inr never ↦ absurd never ], λ p. inl p))
                (λ x. (
                  λ a. elim a [
                    | inl never ↦ absurd never
                    | inr w ↦ ((value, there), (text_iff i x).0 w)
                  ],
                  λ w. inr ((text_iff i x).1 w.1),
                ))
                (Adds-then (operand-Adds EdgeRole.value i e m em)
                  (writes-Adds (text_of (node ir i)) m)))
      ]

  -- An assignment, to a variable and to another target.
  assigns-Adds :
      (i : ℕ) (e e' : Effects)
      → effects_by ir names assign i e ≡ some e'
      → Adds (StatementReads ir names assign i) (StatementWrites ir names assign i) e e'
  unfolding effects_by
  assigns-Adds i e e' h =
      let target = child_role ir i EdgeRole.target in
      let name = text_of (node ir target) in
      let found : (d : ℕ) → Operand ir EdgeRole.target i d → (target ≡ d) × (d ≢ no_node) =
        Operand-child_role ir t EdgeRole.target i in
      elim (Bool-cases (not (target == no_node) && is_variable (node ir target).opcode)) [
        | inl named ↦
            let ne : target ≢ no_node = ground arith in
            let var : (node ir target).opcode ≡ variable =
              is_variable-eq (node ir target).opcode (ground arith) in
            let there = child_role-Operand ir t EdgeRole.target i ne in
            Adds-map
              (λ x. (
                λ a. elim a [ inl never ↦ absurd never | inr p ↦ inr p ],
                λ a. elim a [
                  | inl tg ↦
                      let k = found tg.0 tg.1 in
                      absurd (tg.2 (subst (λ d. (node ir d).opcode ≡ variable) k.0 var))
                  | inr p ↦ inr p
                ],
              ))
              (λ x. (
                λ a. elim a [
                  | inl w ↦ (target, there, var, (text_iff target x).0 w)
                  | inr never ↦ absurd never
                ],
                λ w.
                    let k = found w.0 w.1 in
                    inl (
                      (text_iff target x).1
                        (subst (λ d. (node ir d).value ≡ text (some x)) (sym k.0) w.3)),
              ))
              (Adds-then (writes-Adds name e)
                (operand-Adds EdgeRole.value i (defines ir names name e) e' (rw named at h)))
        | inr other ↦
            let (m, em, k) =
              bind-some (reads ir names target e)
                (λ e1. reads ir names (child_role ir i EdgeRole.value) e1) e' (rw other at h) in
            let no_variable : target ≢ no_node → (node ir target).opcode ≢ variable = λ ne v.
              let on : (target == no_node) ≡ false = ground arith in
              let k : is_variable (node ir target).opcode ≡ true = rw v refl in
              let both : (not (target == no_node) && is_variable (node ir target).opcode) ≡ true =
                rw (on, k) refl in
              cc in
            Adds-map
              (λ x. (
                λ a. elim a [
                  | inl r ↦
                      let ne = Occurs-node target x r in
                      inl (target, child_role-Operand ir t EdgeRole.target i ne, no_variable ne, r)
                  | inr p ↦ inr p
                ],
                λ a. elim a [
                  | inl tg ↦
                      let k = found tg.0 tg.1 in
                      inl (subst (λ d. Occurs ir names d x) (sym k.0) tg.3)
                  | inr p ↦ inr p
                ],
              ))
              (λ x. (
                λ a. elim a [ inl never ↦ absurd never | inr never ↦ absurd never ],
                λ w.
                    let k = found w.0 w.1 in
                    absurd (
                      no_variable (λ z. k.1 (sym k.0 ∙ z))
                        (subst (λ d. (node ir d).opcode ≡ variable) (sym k.0) w.2)),
              ))
              (Adds-then (reads-Adds target e m em) (operand-Adds EdgeRole.value i m e' k))
      ]

  effects_by-Adds :
      (op : Opcode) (i : ℕ) (e e' : Effects)
      → (node ir i).opcode ≡ op
      → effects_by ir names op i e ≡ some e'
      → Adds (StatementReads ir names op i) (StatementWrites ir names op i) e e'
  unfolding effects_by
  effects_by-Adds variable_decl i e e' o h = declares-Adds i e e' h
  effects_by-Adds reassign i e e' o h =
      let (m, em, k) = bind-some (reads ir names (child_role ir i EdgeRole.value) e) _ e' h in
      let same : defines ir names (text_of (node ir i)) m ≡ e' = cc in
      subst
        (λ z. Adds (StatementReads ir names reassign i) (StatementWrites ir names reassign i) e z)
        same
        (Adds-map (λ x. (λ a. elim a [ inl p ↦ p | inr never ↦ absurd never ], λ p. inl p))
          (λ x. (
            λ a. elim a [ inl never ↦ absurd never | inr w ↦ (text_iff i x).0 w ],
            λ w. inr ((text_iff i x).1 w),
          ))
          (Adds-then (operand-Adds EdgeRole.value i e m em) (writes-Adds (text_of (node ir i)) m)))
  effects_by-Adds print i e e' o h = operand-Adds EdgeRole.value i e e' h
  effects_by-Adds return i e e' o h = operand-Adds EdgeRole.value i e e' h
  effects_by-Adds assign i e e' o h = assigns-Adds i e e' h
  effects_by-Adds _ i e e' o h = reads-Adds i e e' h

  -- The rows of a block hold exactly what it reads and writes.
  pub collect_block_effects-Exact :
      (b : Block) (e : Effects)
      → collect_block_effects ir names b ≡ some e
      → Adds (BlockReads ir names b) (BlockWrites ir names b) no_effects e
  unfolding collect_block_effects
  collect_block_effects-Exact b e h =
      let first =
        if b.condition == no_node then some no_effects else reads ir names b.condition no_effects in
      let op = (node ir b.instruction).opcode in
      let (m, em, k) =
        bind-some first
          (λ e1.
            if b.instruction == no_node then some e1 else effects_by ir names op b.instruction e1)
          e h in
      let C : Name → Type 0 = λ x. (b.condition ≢ no_node) × Occurs ir names b.condition x in
      let I : Name → Type 0 =
        λ x. (b.instruction ≢ no_node) × StatementReads ir names op b.instruction x in
      let c : Adds C (λ x. ⊥) no_effects m = elim (Bool-cases (b.condition == no_node)) [
        | inl none_there ↦
            let same : no_effects ≡ m = let q = rw none_there at em in cc in
            let z = (==_iff b.condition no_node).0 none_there in
            subst (λ y. Adds C (λ x. ⊥) no_effects y) same
              (record {
                uses = Marks-nothing ir names C no_effects.uses (λ x p. p.0 z);
                defs = nothing no_effects.defs;
              })
        | inr there ↦
            Adds-map (λ x. (λ o. (Occurs-node b.condition x o, o), λ p. p.1))
              (λ x. (λ w. w, λ w. w)) (reads-Adds b.condition no_effects m (rw there at em))
      ] in
      let i : Adds I (BlockWrites ir names b) m e = elim (Bool-cases (b.instruction == no_node)) [
        | inl none_there ↦
            let same : m ≡ e = let q = rw none_there at k in cc in
            let z = (==_iff b.instruction no_node).0 none_there in
            subst (λ y. Adds I (BlockWrites ir names b) m y) same
              (record {
                uses = Marks-nothing ir names I m.uses (λ x p. p.0 z);
                defs = Marks-nothing ir names (BlockWrites ir names b) m.defs (λ x p. p.0 z);
              })
        | inr there ↦
            let ne : b.instruction ≢ no_node = ground arith in
            Adds-map (λ x. (λ r. (ne, r), λ p. p.1)) (λ x. (λ w. (ne, w), λ p. p.1))
              (effects_by-Adds op b.instruction m e refl (rw there at k))
      ] in
      Adds-map (λ x. (λ p. p, λ p. p))
        (λ x. (λ a. elim a [ inl never ↦ absurd never | inr w ↦ w ], λ w. inr w)) (Adds-then c i)
