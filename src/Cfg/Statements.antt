-- ===== src/Cfg/Statements.antt =====
-- `build_statement` of src/compiler/cfg.c adds good blocks, where it does not fail.
use vnt.Base.{
  ℕ, zero, suc, ◌+◌, ◌≤◌, ◌<◌, ◌≡◌, refl, sym, ap, ◌∙◌, subst, ◌≢◌, inl, inr, Bool, true, false,
  ◌||◌, Option, some, [], ◌∷◌, ◌++◌, arith, leb, ◌==◌, ==_iff, Bool-cases, if_rule, length, get_or,
  length-append, get_or-set_same, get_or-set_other, length-set,
}
use vnt.Ir.Node.{
  same_role, Opcode, EdgeRole, Program, no_node, node, node_count, program, if_op, while_op,
  function, struct, break, continue,
}
use vnt.Cfg.Graph.{Terminator, Block, blank_block, branch, jump, fallthrough}
use vnt.Cfg.Validate.{as_branch, as_return, as_jump, as_fallthrough}
use vnt.Cfg.Effects.{child_role}
use vnt.Cfg.Build.{
  Builder, Statement, build_sequence, build_by, build_statement, new_block, fail,
  set_true_successor, a_block, close_loop, jump_to,
}
use vnt.Cfg.Placed.{
  count, block_at, IsGood, Fits-count, Appended, new_block-Appended, Adds, Adds-nothing, Adds-then,
  new_block-Adds, get_or-append, get_or-append_last,
}
use vnt.Cfg.Built.{
  bind-some, new_block-failed, build_sequence-failed, Place, Place-Adds, Adding, Adding-some,
  Adding-if, build_sequence-Adding,
}

not_failed : (c : Bool) → (c ≡ true → ⊥) → c ≡ false
not_failed true h = absurd (h refl)
not_failed false h = refl

fine-before : (x : Block) (b : Builder) → (new_block x b).1.failed ≡ false → b.failed ≡ false
fine-before x b h = not_failed b.failed (λ bad. let k = new_block-failed x b bad in cc)

-- A loop's test, its body behind it, and the body's block put into the test.
module _ (b : Builder) (next cond : ℕ) (is_cond : cond ≢ no_node) (q body : ℕ × Builder)
    (next_inside : next < count b) (fine : b.failed ≡ false)
    (test : Appended (a_block branch no_node cond no_node next) b q) (a : Adds q.1 body) where
  abbrev x : Block
  x = a_block branch no_node cond no_node next

  size : count q.1 ≡ count b + 1
  size = ap length test.blocks ∙ length-append b.blocks (x ∷ [])

  at_test : block_at body.1 q.0 ≡ x
  at_test =
      a.kept q.0 (omega (arith, size, test.index))
      ∙ ap (λ l. get_or l q.0 blank_block) test.blocks
      ∙ ap (λ j. get_or (b.blocks ++ x ∷ []) j blank_block) test.index
      ∙ get_or-append_last b.blocks x blank_block

  abbrev closed : Builder
  closed = set_true_successor q.0 body.0 body.1

  size_closed : count closed ≡ count body.1
  size_closed = length-set body.1.blocks q.0 _

  other : (i : ℕ) → i ≢ q.0 → block_at closed i ≡ block_at body.1 i
  other i ne = get_or-set_other body.1.blocks q.0 i _ blank_block ne

  at_closed : block_at closed q.0 ≡ record x { true_successor = body.0 }
  at_closed =
      get_or-set_same body.1.blocks q.0 _ blank_block (omega (arith, size, test.index, a.more))
      ∙ ap (λ (y : Block). record y { true_successor = body.0 }) at_test

  IsGood-test : IsGood b.exit_block (count closed) q.0 (block_at closed q.0)
  IsGood-test =
      let body_there = Fits-count body.1 a.fits in
      let entry = a.entry in
      let more = a.more in
      subst (λ y. IsGood b.exit_block (count closed) q.0 y) (sym at_closed)
        (record {
          terminated =
              as_branch refl refl is_cond (λ e. absurd (omega arith))
                (λ e. absurd (omega (arith, size)));
          on_true = λ ne. omega (arith, size_closed);
          on_false = λ ne. omega (arith, size_closed, size);
        })

  pub close_loop-Adds : Adds b (q.0, closed)
  close_loop-Adds = record {
    fine = fine;
    more = omega (arith, size, a.more, size_closed);
    kept = λ i h.
        other i (λ e. absurd (omega (arith, test.index)))
        ∙ a.kept i (omega (arith, size))
        ∙ ap (λ l. get_or l i blank_block) test.blocks
        ∙ get_or-append b.blocks x i blank_block h;
    good = λ i lo hi. elim (Bool-cases (i == q.0)) [
      | inl at ↦
          subst (λ j. IsGood b.exit_block (count closed) j (block_at closed j))
            (sym ((==_iff i q.0).0 at)) IsGood-test
      | inr later ↦
          let ne : i ≢ q.0 = ground arith in
          rw (other i ne, size_closed)
            (subst (λ e. IsGood e (count body.1) i (block_at body.1 i)) test.exit
              (a.good i (omega (arith, size, test.index)) (omega (arith, size_closed))))
    ];
    entry = omega (arith, size, test.index, a.more, size_closed);
    exit = a.exit ∙ test.exit;
    fits = record { used = omega (arith, size_closed, a.fits.used); bound = a.fits.bound };
  }

module _ (ir : Program) (fits_ir : node_count ir ≤ no_node) where
  module _ (st : Statement)
      (adding : (c next brk cont : ℕ) (b : Builder)
        → c < node_count ir
        → Place next brk cont b
        → b.failed ≡ false
        → Adding b (st c next brk cont b))
      (c next brk cont : ℕ) (b : Builder) (p : Place next brk cont b) (fine : b.failed ≡ false)
      (lt : c < node_count ir) where
    abbrev sequence : ℕ → ℕ → EdgeRole → ℕ → Builder → Option (ℕ × Builder)
    sequence brk' cont' role next' b' = build_sequence st brk' cont' ir c role next' false b'

    if-Adding : Adding b (build_by ir st if_op c next brk cont b)
    unfolding build_by same_role
    if-Adding =
        let cond = child_role ir c EdgeRole.condition in
        Adding-if b (cond == no_node) _ _ (λ _. Adding-some b (no_node, fail b) (λ h. cc))
          λ k r h done.
            let is_cond : cond ≢ no_node = ground arith in
            let (t, et, k1) = bind-some (sequence brk cont EdgeRole.then_role next b) _ r h in
            let (e, ee, k2) = bind-some (sequence brk cont EdgeRole.else_role next t.1) _ r k1 in
            let x = a_block branch no_node cond t.0 e.0 in
            let same : new_block x e.1 ≡ r = cc in
            let done' : (new_block x e.1).1.failed ≡ false = rw same done in
            let fine_e = fine-before x e.1 done' in
            let fine_t = not_failed t.1.failed (λ bad.
              let f =
                build_sequence-failed st brk cont ir c EdgeRole.else_role next false t.1 e bad ee in
              cc) in
            let a1 =
              build_sequence-Adding ir st adding brk cont c EdgeRole.then_role next false b refl p
                fine t et fine_t in
            let p1 = Place-Adds next p a1 (omega (arith, p.next_inside, a1.more)) in
            let a2 =
              build_sequence-Adding ir st adding brk cont c EdgeRole.else_role next false t.1 refl
                p1 fine_t e ee fine_e in
            let there = Fits-count e.1 a2.fits in
            let on_true = a1.entry in
            let on_false = a2.entry in
            let more = a2.more in
            let good : IsGood e.1.exit_block (count e.1 + 1) (count e.1) x = record {
              terminated =
                  as_branch refl refl is_cond (λ z. absurd (omega arith))
                    (λ z. absurd (omega arith));
              on_true = λ ne. omega arith;
              on_false = λ ne. omega arith;
            } in
            subst (λ (y : ℕ × Builder). Adds b y) same
              (Adds-then (Adds-then a1 a2) (new_block-Adds x e.1 a2.fits done' good))

    while-Adding : Adding b (build_by ir st while_op c next brk cont b)
    unfolding build_by close_loop same_role
    while-Adding =
        let cond = child_role ir c EdgeRole.condition in
        let x = a_block branch no_node cond no_node next in
        let q = new_block x b in
        Adding-if b (cond == no_node) _ _ (λ _. Adding-some b (no_node, fail b) (λ h. cc))
          λ k.
            Adding-if b (q.0 == no_node) _ _
              (λ z. Adding-some b q (λ done.
                let a = new_block-Appended x b p.fits done in
                let there = Fits-count b p.fits in let at = a.index in absurd (ground arith)))
              λ nz r h done.
                let is_cond : cond ≢ no_node = ground arith in
                let (body, eb, k1) = bind-some (sequence next q.0 EdgeRole.body q.0 q.1) _ r h in
                let same : close_loop q.0 body ≡ r = cc in
                let done' : (close_loop q.0 body).1.failed ≡ false = rw same done in
                let is_body : (body.0 == no_node) ≡ false =
                  not_failed (body.0 == no_node)
                    (λ z. let f : (close_loop q.0 body).1.failed ≡ true = rw z in cc) in
                let closes : close_loop q.0 body ≡ (q.0, set_true_successor q.0 body.0 body.1) =
                  rw is_body in
                let fine_body : body.1.failed ≡ false = rw closes at done' in
                let fine_q : q.1.failed ≡ false = not_failed q.1.failed (λ bad.
                  let f =
                    build_sequence-failed st next q.0 ir c EdgeRole.body q.0 false q.1 body bad
                      eb in
                  cc) in
                let test = new_block-Appended x b p.fits fine_q in
                let size : count q.1 ≡ count b + 1 =
                  ap length test.blocks ∙ length-append b.blocks (x ∷ []) in
                let inside : Place q.0 next q.0 q.1 = record {
                  next_inside = omega (arith, test.index);
                  break_inside = λ ne. omega (arith, p.next_inside);
                  continue_inside = λ ne. omega (arith, test.index);
                  exit_inside = omega (arith, p.exit_inside, test.exit);
                  fits = test.fits;
                } in
                let a =
                  build_sequence-Adding ir st adding next q.0 c EdgeRole.body q.0 false q.1 refl
                    inside fine_q body eb fine_body in
                subst (λ (y : ℕ × Builder). Adds b y) (sym closes ∙ same)
                  (close_loop-Adds b next cond is_cond q body p.next_inside fine test a)

    abbrev leaf : Block → ℕ × Builder
    leaf x = new_block x b

    leaf-Adding :
        (x : Block) → IsGood b.exit_block (count b + 1) (count b) x → Adding b (some (leaf x))
    leaf-Adding x g = Adding-some b (leaf x) (λ done. new_block-Adds x b p.fits done g)

    is_node : c ≢ no_node
    is_node e = absurd (omega arith)

    return-Adding : Adding b (build_by ir st Opcode.return c next brk cont b)
    unfolding build_by
    return-Adding =
        let exit_inside = p.exit_inside in
        leaf-Adding (a_block Terminator.return c no_node b.exit_block no_node) (record {
          terminated = as_return refl is_node refl refl refl;
          on_true = λ ne. omega arith;
          on_false = λ ne. absurd (ne refl);
        })

    jump_to-Adding :
        (target : ℕ) → (target ≢ no_node → target < count b) → Adding b (some (jump_to c target b))
    unfolding jump_to
    jump_to-Adding target inside =
        if_rule (λ (o : ℕ × Builder). Adding b (some o)) (target == no_node)
          (λ _. Adding-some b (no_node, fail b) (λ h. cc))
          λ k.
            let ne : target ≢ no_node = ground arith in
            leaf-Adding (a_block jump c no_node target no_node) (record {
              terminated = as_jump refl refl ne refl;
              on_true = λ _. omega (arith, inside ne);
              on_false = λ n. absurd (n refl);
            })

    plain-Adding : Adding b (some (leaf (a_block fallthrough c no_node next no_node)))
    plain-Adding =
        let next_inside = p.next_inside in
        let there = Fits-count b p.fits in
        leaf-Adding (a_block fallthrough c no_node next no_node) (record {
          terminated = as_fallthrough refl is_node refl (λ e. absurd (omega arith)) refl;
          on_true = λ _. omega arith;
          on_false = λ n. absurd (n refl);
        })

    next-Adding : Adding b (some (next, b))
    next-Adding = Adding-some b (next, b) (λ _. Adds-nothing b next fine p.next_inside p.fits)

    build_by-Adding : (op : Opcode) → Adding b (build_by ir st op c next brk cont b)
    unfolding build_by same_role
    build_by-Adding program =
        build_sequence-Adding ir st adding brk cont c EdgeRole.statement next false b refl p fine
    build_by-Adding if_op = if-Adding
    build_by-Adding while_op = while-Adding
    build_by-Adding Opcode.return = return-Adding
    build_by-Adding break = jump_to-Adding brk p.break_inside
    build_by-Adding continue = jump_to-Adding cont p.continue_inside
    build_by-Adding function = next-Adding
    build_by-Adding struct = next-Adding
    build_by-Adding _ = plain-Adding

  pub build_statement-Adding :
      (fuel c next brk cont : ℕ) (b : Builder)
      → c < node_count ir
      → Place next brk cont b
      → b.failed ≡ false
      → Adding b (build_statement ir fuel c next brk cont b)
  unfolding build_statement
  build_statement-Adding zero c next brk cont b lt p fine r h done = cc
  build_statement-Adding (suc fuel) c next brk cont b lt p fine r h done =
      let go : (b.failed || leb (node_count ir) c) ≡ false = ground arith in
      build_by-Adding (build_statement ir fuel)
        (λ d n k l x ld q. build_statement-Adding fuel d n k l x ld q) c next brk cont b p fine lt
        (node ir c).opcode r (rw go at h) done
