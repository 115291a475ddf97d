-- ===== src/Parser/Total.antt =====
-- `parse_expression` of src/parser/binary.c runs to an end and is balanced.
use vnt.Base.{
  ℕ, zero, suc, ◌+◌, ◌-◌, ◌≤◌, ◌<◌, ◌≡◌, refl, ap, ◌∙◌, ◌⊎◌, inl, inr, Bool, true, false, arith,
  leb, ◌==◌, if◌then◌else◌, if_rule, length,
}
use vnt.Lexer.Fits.{int_max}
use vnt.Parser.Ast.{Ast}
use vnt.Parser.State.{Parser, max_nesting, parser_enter_nesting, parser_leave_nesting}
use vnt.Parser.Expression.{Outcome, ok, failed, out_of_fuel}
use vnt.Parser.Levels.{leave_expression, reset_operators, parse_expression, parse_or}
use vnt.Parser.Runs.{
  left, IsReady, Keeps, Keeps-refl, Runs, Runs-ok, Runs-failed, Runs-after, Entered, IsWithin,
  parser_enter_nesting-Entered, parser_leave_nesting-Keeps,
}
use vnt.Parser.Binary.{left-parser_leave_nesting, deeper, or-Runs}

reset_operators-Keeps : (p : Parser) → Keeps p (reset_operators p)
reset_operators-Keeps p =
    if_rule (Keeps p) (p.expression_depth == 0)
      (λ outer. record {
        depth = refl;
        expression_depth = refl;
        failure = λ h. h;
        bounded = λ h. record { nesting = h.nesting; operators = omega arith };
        ready = λ h. record { inside = h.inside };
        onward = omega arith;
        source = refl;
        within = λ h. record { cursor = h.cursor };
      })
      (λ inner. Keeps-refl p)

-- The state in which the operands are parsed, one level deeper in both counts.
abbrev inner_state : Parser → Parser
inner_state p = record (deeper p) { expression_depth = p.expression_depth + 1 }

abbrev shallower : Parser → Parser
shallower s = record s { expression_depth = s.expression_depth - 1 }

module _ (p : Parser) (lt : p.nesting_depth < max_nesting) where
  shallower-Keeps :
      (s : Parser) → Keeps (inner_state p) s → Keeps p (parser_leave_nesting (shallower s))
  shallower-Keeps s k =
      let expression_depth = k.expression_depth in
      parser_leave_nesting-Keeps p (shallower s) lt (record {
        depth = k.depth;
        expression_depth = omega arith;
        failure = k.failure;
        bounded = λ h.
            let b = k.bounded (record { nesting = h.nesting; operators = h.operators }) in
            record { nesting = b.nesting; operators = b.operators };
        ready = λ h. record { inside = (k.ready (record { inside = h.inside })).inside };
        onward = k.onward;
        source = k.source;
        within = λ h. record { cursor = (k.within (record { cursor = h.cursor })).cursor };
      })

  leave_expression-Runs :
      (r : Outcome Ast × Parser) → Runs 1 (inner_state p) r → Runs 1 p (leave_expression r)
  leave_expression-Runs (ok a, s) y =
      let k = shallower-Keeps s y.keeps in
      let same = left-parser_leave_nesting (shallower s) in
      if_rule (Runs 1 p) (parser_leave_nesting (shallower s)).nesting_failed (λ _. Runs-failed 1 k)
        (λ _. Runs-ok a k (omega (arith, y.consumes a refl, same)))
  leave_expression-Runs (failed, s) y =
      let k = shallower-Keeps s y.keeps in
      if_rule (Runs 1 p) (parser_leave_nesting (shallower s)).nesting_failed (λ _. Runs-failed 1 k)
        (λ _. Runs-failed 1 k)
  leave_expression-Runs (out_of_fuel, s) y = absurd (y.ends refl)

-- From a state whose lexer may be called, with more fuel than bytes left, an expression is parsed or
-- refused and not cut short.
pub parse_expression-Runs :
    (n fuel : ℕ) (p : Parser)
    → fuel ≤ n
    → IsReady p
    → left p + 1 ≤ fuel
    → Runs 1 p (parse_expression n fuel p)
unfolding parse_expression
parse_expression-Runs n zero p fn ready lf = absurd (omega arith)
parse_expression-Runs n (suc m) p fn ready lf =
    let p1 = reset_operators p in
    let k = reset_operators-Keeps p in
    let onward = k.onward in
    let run : (q : Parser) → IsReady q → left q + 1 ≤ m → Runs 1 q (parse_expression n m q) =
      λ q ready_q lq. parse_expression-Runs n m q (omega arith) ready_q lq in
    Runs-after 0 k (omega arith) (
      inside p1 (k.ready ready) (omega arith) run (parser_enter_nesting p1)
        (parser_enter_nesting-Entered p1))
  where
    inside :
        (p1 : Parser)
        → IsReady p1
        → left p1 ≤ m
        → ((q : Parser) → IsReady q → left q + 1 ≤ m → Runs 1 q (parse_expression n m q))
        → (r : Bool × Parser) → Entered p1 r
        → Runs 1 p1 (
            if r.0
            then leave_expression (
                parse_or
                  (parse_expression n m)
                  n
                  (record r.1 { expression_depth = r.1.expression_depth + 1 }))
            else (failed, r.1))
    inside p1 ready1 lm run (true, q) (e, lt) = rw e (
        leave_expression-Runs p1 lt _ (
          or-Runs (parse_expression n m) m run n (omega arith) (inner_state p1)
            (record { inside = ready1.inside }) lm))
    inside p1 ready1 lm run (false, q) k = Runs-failed 1 k

-- What the caller of `parse_expression` may rely on.
pub record Served (p : Parser) (r : Outcome Ast × Parser) : Type 0 where
  -- parsed or refused, the depths again as they were; a parsed expression took a byte at least
  pub runs : Runs 1 p r
  -- at the limit of the nesting the expression is refused, and that is recorded
  pub limited : max_nesting ≤ p.nesting_depth → (r.0 ≡ failed) × (r.1.nesting_failed ≡ true)
  -- also after an earlier failure
  pub after_failure : p.nesting_failed ≡ true → (r.0 ≡ failed) × (r.1.nesting_failed ≡ true)
  -- the cursor is an `int`
  pub cursor : r.1.lexer.current ≤ int_max

reset_operators-same :
    (p : Parser)
    → ((reset_operators p).nesting_depth ≡ p.nesting_depth)
      × ((reset_operators p).nesting_failed ≡ p.nesting_failed)
reset_operators-same p =
    if_rule
      (λ (q : Parser). (q.nesting_depth ≡ p.nesting_depth) × (q.nesting_failed ≡ p.nesting_failed))
      (p.expression_depth == 0) (λ outer. (refl, refl)) (λ inner. (refl, refl))

parser_enter_nesting-full :
    (p : Parser)
    → (max_nesting ≤ p.nesting_depth) ⊎ (p.nesting_failed ≡ true)
    → ((parser_enter_nesting p).0 ≡ false) × ((parser_enter_nesting p).1.nesting_failed ≡ true)
unfolding parser_enter_nesting
parser_enter_nesting-full p h =
    let P : Bool × Parser → Type 0 = λ r. (r.0 ≡ false) × (r.1.nesting_failed ≡ true) in
    if_rule P p.nesting_failed (λ gone. (refl, gone))
      λ fine.
        if_rule P (leb max_nesting p.nesting_depth) (λ full. (refl, refl))
          λ below. absurd (elim h [ inl deep ↦ ground arith | inr gone ↦ cc ])

parse_expression-refused :
    (n fuel : ℕ) (p : Parser)
    → (max_nesting ≤ p.nesting_depth) ⊎ (p.nesting_failed ≡ true)
    → ((parse_expression n (suc fuel) p).0 ≡ failed)
      × ((parse_expression n (suc fuel) p).1.nesting_failed ≡ true)
unfolding parse_expression
parse_expression-refused n fuel p h =
    let same = reset_operators-same p in
    let k =
      parser_enter_nesting-full (reset_operators p)
        (elim h [ inl deep ↦ inl (omega (arith, same.0)) | inr gone ↦ inr (same.1 ∙ gone) ]) in
    rw (parse_expression, k.0) (refl, k.1)

-- From a state whose lexer may be called, on a source shorter than INT_MAX and with more fuel than bytes
-- left, an expression is parsed or refused, never cut short. The nesting and the expression depth are
-- again as before, a failure of the nesting stays, and the nesting and operator counts are within their
-- limits if they were before; an expression that is parsed has consumed one byte at least. At the limit
-- of the nesting, and after an earlier failure, the expression is refused and the failure recorded. The
-- lexer's cursor stays within INT_MAX.
pub parse_expression-Served :
    (n fuel : ℕ) (p : Parser)
    → fuel ≤ n
    → IsReady p
    → IsWithin p
    → length p.lexer.source < int_max
    → left p + 1 ≤ fuel
    → Served p (parse_expression n fuel p)
parse_expression-Served n zero p fn ready within short lf = absurd (omega arith)
parse_expression-Served n (suc fuel) p fn ready within short lf =
    let run = parse_expression-Runs n (suc fuel) p fn ready lf in
    let behind = (run.keeps.within within).cursor in
    record {
      runs = run;
      limited = λ deep. parse_expression-refused n fuel p (inl deep);
      after_failure = λ gone. parse_expression-refused n fuel p (inr gone);
      cursor = omega (arith, behind, ap length run.keeps.source);
    }
