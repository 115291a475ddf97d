-- ===== src/Parser/Binary.antt =====
-- `parse_unary` of src/parser/unary.c and the loops of src/parser/binary.c run to an end and are
-- balanced, for any `expression` that is.
use vnt.Base.{
  ℕ, zero, suc, ◌+◌, ◌≤◌, ◌<◌, ◌≡◌, refl, ◌≢◌, inl, inr, Bool, true, false, Option, none, some,
  arith, ltb, if◌then◌else◌, Bool-cases, Option-cases, if_rule,
}
use vnt.Lexer.State.{
  TokenType, eof, integer, minus, bang, ampersand, star, slash, percent, plus, greater, less,
  greater_equal, less_equal, equal_equal, bang_equal, and_and, or_or,
}
use vnt.Parser.Ast.{Ast, integer_literal}
use vnt.Base.Int.{int64_min}
use vnt.Ir.Node.{BinaryOperator, UnaryOperator}
use vnt.Parser.State.{
  Parser, max_nesting, parser_advance, parser_check, type_index, parser_enter_nesting,
  parser_leave_nesting,
}
use vnt.Parser.Expression.{
  Outcome, ok, failed, out_of_fuel, Parse, parse_unary, is_unary, is_min_literal, leave_with,
  unary_operator,
}
use vnt.Parser.Levels.{
  binary_loop, binary_level, multiplication_operator, addition_operator, comparison_operator,
  equality_operator, and_operator, or_operator, parse_multiplication, parse_addition,
  parse_comparison, parse_equality, parse_and, parse_or,
}
use vnt.Parser.Runs.{
  left, IsReady, Keeps, Keeps-trans, Runs, Runs-ok, Runs-failed, Runs-weaken, Runs-after,
  Runs-continue, note_operator-then, parser_advance_onward, parser_advance-Keeps,
  parser_check-ne-eof, Entered, parser_enter_nesting-Entered, parser_leave_nesting-Keeps,
}
use vnt.Parser.Primary.{Runs-pure}
use vnt.Parser.Postfix.{postfix-Runs}

abbrev pub deeper : Parser → Parser
deeper p = record p { nesting_depth = p.nesting_depth + 1 }

pub left-parser_leave_nesting : (q : Parser) → left (parser_leave_nesting q) ≡ left q
unfolding parser_leave_nesting
left-parser_leave_nesting q =
    if_rule (λ x. left x ≡ left q) (ltb 0 q.nesting_depth) (λ _. refl) (λ _. refl)

module _ (expression : Parse Ast) where
  -- The nesting is left behind a run from `q`, itself a state inside the nesting.
  leave_with-Runs :
      (op : UnaryOperator) (p q : Parser) (r : Outcome Ast × Parser)
      → p.nesting_depth < max_nesting
      → Keeps (deeper p) q
      → Runs 1 q r
      → Runs 1 p (leave_with expression op r)
  leave_with-Runs op p q (ok a, s) lt k y =
      Runs-ok _ (parser_leave_nesting-Keeps p s lt (Keeps-trans k y.keeps))
        (omega (arith, left-parser_leave_nesting s, y.consumes a refl, k.onward))
  leave_with-Runs op p q (failed, s) lt k y =
      Runs-failed 1 (parser_leave_nesting-Keeps p s lt (Keeps-trans k y.keeps))
  leave_with-Runs op p q (out_of_fuel, s) lt k y = absurd (y.ends refl)

  unary-ne-eof : (p : Parser) → is_unary expression p ≡ true → p.current.type ≢ eof
  unary-ne-eof p h = elim (Bool-cases (parser_check p bang)) [
    | inl c ↦ parser_check-ne-eof p bang (unfold type_index in omega arith) c
    | inr c1 ↦ elim (Bool-cases (parser_check p minus)) [
      | inl c ↦ parser_check-ne-eof p minus (unfold type_index in omega arith) c
      | inr c2 ↦ elim (Bool-cases (parser_check p ampersand)) [
        | inl c ↦ parser_check-ne-eof p ampersand (unfold type_index in omega arith) c
        | inr c3 ↦ parser_check-ne-eof p star (unfold type_index in omega arith) (ground arith)
      ]
    ]
  ]

  min_literal-ne-eof : (p q : Parser) → is_min_literal expression p q ≡ true → q.current.type ≢ eof
  min_literal-ne-eof p q h =
      parser_check-ne-eof q integer (unfold type_index in omega arith) (ground arith)

module _ (expression : Parse Ast) (m : ℕ)
    (run : (q : Parser) → IsReady q → left q + 1 ≤ m → Runs 1 q (expression q)) (n : ℕ)
    (mn : m + 1 ≤ n) where
  pub unary-Runs :
      (fuel : ℕ) (p : Parser)
      → IsReady p
      → left p ≤ m
      → left p + 1 ≤ fuel
      → Runs 1 p (parse_unary expression n fuel p)
  unfolding parse_unary
  unary-Runs zero p ready lm lf = absurd (omega arith)
  unary-Runs (suc fuel) p ready lm lf =
      if_rule (Runs 1 p) (is_unary expression p)
        (λ c.
          inside (λ q ready_q lq lf_q. unary-Runs fuel q ready_q lq lf_q)
            (unary-ne-eof expression p c) (parser_enter_nesting p) (parser_enter_nesting-Entered p))
        (λ _. postfix-Runs expression m run n mn p ready lm)
    where
      inside :
          ((q : Parser)
            → IsReady q
            → left q ≤ m
            → left q + 1 ≤ fuel
            → Runs 1 q (parse_unary expression n fuel q))
          → p.current.type ≢ eof
          → (r : Bool × Parser) → Entered p r
          → Runs 1 p (
              if r.0
              then (if is_min_literal expression p (parser_advance r.1)
                  then (
                    ok (integer_literal int64_min),
                    parser_leave_nesting (parser_advance (parser_advance r.1)),
                  )
                  else leave_with expression
                      (unary_operator expression p)
                      (parse_unary expression n fuel (parser_advance r.1)))
              else (failed, r.1))
      inside again ne (true, q) (e, lt) =
          let ready1 : IsReady (deeper p) = record { inside = ready.inside } in
          let k1 = parser_advance-Keeps (deeper p) ready1 ne in
          let on = parser_advance_onward (deeper p) ready1 ne in
          let next = parser_advance (deeper p) in
          rw e (
            if_rule (Runs 1 p) (is_min_literal expression p next)
              (λ c.
                let ne2 = min_literal-ne-eof expression p next c in
                let ready2 = k1.ready ready1 in
                Runs-ok _
                  (parser_leave_nesting-Keeps p _ lt
                    (Keeps-trans k1 (parser_advance-Keeps next ready2 ne2)))
                  (omega (
                    arith,
                    left-parser_leave_nesting (parser_advance next),
                    parser_advance_onward next ready2 ne2,
                  )))
              (λ _.
                leave_with-Runs expression (unary_operator expression p) p next _ lt k1
                  (again next (k1.ready ready1) (omega arith) (omega arith))))
      inside again ne (false, q) k = Runs-failed 1 k

-- An operator of the level stands at a token that is not the end of the input.
abbrev pub Opens : (Parser → Option BinaryOperator) → Type 0
Opens operator = (q : Parser) (op : BinaryOperator) → operator q ≡ some op → q.current.type ≢ eof

module _ (operator : Parser → Option BinaryOperator) (opens : Opens operator) (operand : Parse Ast)
    (m n : ℕ) (mn : m + 1 ≤ n)
    (run : (q : Parser) → IsReady q → left q ≤ m → Runs 1 q (operand q)) where
  binary_loop-Runs :
      (fuel : ℕ) (a : Ast) (p : Parser)
      → IsReady p
      → left p ≤ m
      → left p + 1 ≤ fuel
      → Runs 0 p (binary_loop operator operand fuel a p)
  unfolding binary_loop
  binary_loop-Runs zero a p ready lm lf = absurd (omega arith)
  binary_loop-Runs (suc fuel) a p ready lm lf = elim (Option-cases (operator p)) [
    | inl end ↦ rw (end, binary_loop) (Runs-pure p a)
    | inr on ↦
        let ne = opens p on.0 on.1 in
        let k = parser_advance-Keeps p ready ne in
        let onward = parser_advance_onward p ready ne in
        let q = parser_advance p in
        rw (on.1, binary_loop)
          (Runs-weaken _ (omega arith) (
            Runs-after 1 k onward (
              note_operator-then q _ λ s ks same.
                let below = ks.onward in
                Runs-continue 0 (operand s) _ (run s (ks.ready (k.ready ready)) (omega arith))
                  λ b t kt ht.
                    binary_loop-Runs fuel _ t (kt.ready (ks.ready (k.ready ready))) (omega arith)
                      (omega arith))))
  ]

  pub level-Runs :
      (p : Parser) → IsReady p → left p ≤ m → Runs 1 p (binary_level operator operand n p)
  level-Runs p ready lm =
      Runs-continue 0 (operand p) _ (run p ready lm)
        λ a q k h. binary_loop-Runs n a q (k.ready ready) (omega arith) (omega arith)

-- One more token that stands for an operator.
opens_if :
    (q : Parser) (op o : BinaryOperator) (t : TokenType) (rest : Option BinaryOperator)
    → 0 < type_index t
    → (rest ≡ some op → q.current.type ≢ eof)
    → (if parser_check q t then some o else rest) ≡ some op
    → q.current.type ≢ eof
opens_if q op o t rest pos h =
    if_rule (λ x. x ≡ some op → q.current.type ≢ eof) (parser_check q t)
      (λ c e. parser_check-ne-eof q t pos c) (λ _. h)

no_operator : (q : Parser) (op : BinaryOperator) → none ≡ some op → q.current.type ≢ eof
no_operator q op e = cc

multiplication-Opens : Opens multiplication_operator
multiplication-Opens q op = opens_if q op _ star _ (unfold type_index in omega arith) (
    opens_if q op _ slash _ (unfold type_index in omega arith)
      (opens_if q op _ percent _ (unfold type_index in omega arith) (no_operator q op)))

addition-Opens : Opens addition_operator
addition-Opens q op =
    opens_if q op _ plus _ (unfold type_index in omega arith)
      (opens_if q op _ minus _ (unfold type_index in omega arith) (no_operator q op))

comparison-Opens : Opens comparison_operator
comparison-Opens q op = opens_if q op _ greater _ (unfold type_index in omega arith) (
    opens_if q op _ less _ (unfold type_index in omega arith) (
      opens_if q op _ greater_equal _ (unfold type_index in omega arith)
        (opens_if q op _ less_equal _ (unfold type_index in omega arith) (no_operator q op))))

equality-Opens : Opens equality_operator
equality-Opens q op =
    opens_if q op _ equal_equal _ (unfold type_index in omega arith)
      (opens_if q op _ bang_equal _ (unfold type_index in omega arith) (no_operator q op))

and-Opens : Opens and_operator
and-Opens q op = opens_if q op _ and_and _ (unfold type_index in omega arith) (no_operator q op)

or-Opens : Opens or_operator
or-Opens q op = opens_if q op _ or_or _ (unfold type_index in omega arith) (no_operator q op)

module _ (expression : Parse Ast) (m : ℕ)
    (run : (q : Parser) → IsReady q → left q + 1 ≤ m → Runs 1 q (expression q)) (n : ℕ)
    (mn : m + 1 ≤ n) where
  -- The levels, from the tightest to the loosest.
  pub or-Runs : (p : Parser) → IsReady p → left p ≤ m → Runs 1 p (parse_or expression n p)
  unfolding parse_or parse_and parse_equality parse_comparison parse_addition parse_multiplication
  or-Runs = level-Runs or_operator or-Opens _ m n mn (
      level-Runs and_operator and-Opens _ m n mn (
        level-Runs equality_operator equality-Opens _ m n mn (
          level-Runs comparison_operator comparison-Opens _ m n mn (
            level-Runs addition_operator addition-Opens _ m n mn (
              level-Runs multiplication_operator multiplication-Opens _ m n mn
                λ q ready lm. unary-Runs expression m run n mn n q ready lm (omega arith))))))
