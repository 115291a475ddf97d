-- ===== src/Parser/Primary.antt =====
-- `parse_primary` of src/parser/primary.c runs to an end and is balanced, for any `expression` that is.
use vnt.Base.{ℕ, zero, suc, ◌+◌, ◌≤◌, ◌<◌, ◌≡◌, true, arith, if_rule}
use vnt.Lexer.State.{TokenType, comma, left_paren, right_paren, left_bracket, right_bracket}
use vnt.Parser.Ast.{Ast, Asts, no_asts}
use vnt.Parser.State.{Parser, parser_advance, parser_check, type_index}
use vnt.Parser.Expression.{
  Outcome, ok, Parse, continue, expect, consume, parse_elements, parse_arguments,
  parse_qualified_arguments, parse_array, parse_parenthesis,
}
use vnt.Parser.Runs.{
  left, IsReady, Keeps-refl, Runs, Runs-ok, Runs-failed, Runs-weaken, Runs-after, Runs-continue,
  parser_advance_onward, parser_advance-Keeps, parser_check-ne-eof, expect-Runs, consume-Runs,
}

-- One token is consumed and then `k` bytes more.
pub advance-then :
    {A : Type 0} {r : Outcome A × Parser} (p : Parser) (t : TokenType)
    → IsReady p
    → 0 < type_index t
    → parser_check p t ≡ true
    → (IsReady (parser_advance p)
        → left (parser_advance p) + 1 ≤ left p
        → Runs 0 (parser_advance p) r)
    → Runs 1 p r
advance-then p t ready pos h rest =
    let ne = parser_check-ne-eof p t pos h in
    let k = parser_advance-Keeps p ready ne in
    let on = parser_advance_onward p ready ne in Runs-after 1 k on (rest (k.ready ready) on)

pub Runs-pure : {A : Type 0} (p : Parser) (a : A) → Runs 0 p (ok a, p)
Runs-pure p a = Runs-ok a (Keeps-refl p) (omega arith)

-- A token that must stand there, and a result behind it.
pub expect-then :
    {A : Type 0} (p : Parser) (t : TokenType) (a : A)
    → IsReady p
    → 0 < type_index t
    → Runs 0 p (continue (expect t p).0 (expect t p).1 (λ _ q. (ok a, q)))
expect-then p t a ready pos = Runs-weaken _ (omega arith) (
    Runs-continue 0 (expect t p) (λ _ q. (ok a, q)) (expect-Runs p ready t pos)
      (λ u q k h. Runs-pure q a))

pub consume-then :
    {A : Type 0} (p : Parser) (t : TokenType) (f : Unit {0} → Parse A)
    → IsReady p
    → 0 < type_index t
    → ((q : Parser) → IsReady q → left q + 1 ≤ left p → Runs 0 q (f tt q))
    → Runs 0 p (continue (consume t p).0 (consume t p).1 f)
consume-then p t f ready pos rest = Runs-weaken _ (omega arith) (
    Runs-continue 0 (consume t p) f (consume-Runs p ready t pos)
      (λ u q k h. rest q (k.ready ready) h))

module _ (expression : Parse Ast) (m : ℕ)
    (run : (q : Parser) → IsReady q → left q + 1 ≤ m → Runs 1 q (expression q)) where
  elements-Runs :
      (fuel : ℕ) (acc : Asts) (p : Parser)
      → IsReady p
      → left p + 1 ≤ m
      → left p + 1 ≤ fuel
      → Runs 0 p (parse_elements expression fuel acc p)
  unfolding parse_elements
  elements-Runs zero acc p ready lm lf = absurd (omega arith)
  elements-Runs (suc fuel) acc p ready lm lf = Runs-weaken _ (omega arith) (
      Runs-continue 0 (expression p) _ (run p ready lm) λ element q k h.
        if_rule (Runs 0 q) (parser_check q comma)
          (λ c. Runs-weaken _ (omega arith) (
            advance-then q comma (k.ready ready) (unfold type_index in omega arith) c λ r on.
              if_rule (Runs 0 (parser_advance q)) (parser_check (parser_advance q) right_bracket)
                (λ _. Runs-pure _ _)
                (λ _. elements-Runs fuel _ (parser_advance q) r (omega arith) (omega arith))))
          (λ _. Runs-pure q _))

  pub arguments-Runs :
      (fuel : ℕ) (acc : Asts) (p : Parser)
      → IsReady p
      → left p + 1 ≤ m
      → left p + 1 ≤ fuel
      → Runs 0 p (parse_arguments expression fuel acc p)
  unfolding parse_arguments
  arguments-Runs zero acc p ready lm lf = absurd (omega arith)
  arguments-Runs (suc fuel) acc p ready lm lf = Runs-weaken _ (omega arith) (
      Runs-continue 0 (expression p) _ (run p ready lm) λ element q k h.
        if_rule (Runs 0 q) (parser_check q comma)
          (λ c. Runs-weaken _ (omega arith) (
            advance-then q comma (k.ready ready) (unfold type_index in omega arith) c λ r on.
              if_rule (Runs 0 (parser_advance q)) (parser_check (parser_advance q) right_paren)
                (λ _. Runs-failed 0 (Keeps-refl _))
                (λ _. arguments-Runs fuel _ (parser_advance q) r (omega arith) (omega arith))))
          (λ _. Runs-pure q _))

  pub qualified_arguments-Runs :
      (fuel : ℕ) (acc : Asts) (p : Parser)
      → IsReady p
      → left p + 1 ≤ m
      → left p + 1 ≤ fuel
      → Runs 0 p (parse_qualified_arguments expression fuel acc p)
  unfolding parse_qualified_arguments
  qualified_arguments-Runs zero acc p ready lm lf = absurd (omega arith)
  qualified_arguments-Runs (suc fuel) acc p ready lm lf = Runs-weaken _ (omega arith) (
      Runs-continue 0 (expression p) _ (run p ready lm) λ element q k h.
        if_rule (Runs 0 q) (parser_check q right_paren) (λ _. Runs-pure q _)
          (λ _.
            consume-then q comma _ (k.ready ready) (unfold type_index in omega arith)
              λ r ready_r on.
                qualified_arguments-Runs fuel _ r ready_r (omega arith) (omega arith)))

  module _ (n : ℕ) (mn : m + 1 ≤ n) (p : Parser) (ready : IsReady p) (lm : left p ≤ m) where
    pub array-Runs : parser_check p left_bracket ≡ true → Runs 1 p (parse_array expression n p)
    unfolding parse_array
    array-Runs c = advance-then p left_bracket ready (unfold type_index in omega arith) c λ r on.
        Runs-continue 0 _ _
          (if_rule (Runs 0 (parser_advance p)) (parser_check (parser_advance p) right_bracket)
            (λ _. Runs-pure _ no_asts)
            (λ _. elements-Runs n no_asts (parser_advance p) r (omega arith) (omega arith)))
          λ elements q k h.
            expect-then q right_bracket _ (k.ready r) (unfold type_index in omega arith)

    pub parenthesis-Runs :
        parser_check p left_paren ≡ true → Runs 1 p (parse_parenthesis expression p)
    unfolding parse_parenthesis
    parenthesis-Runs c =
        advance-then p left_paren ready (unfold type_index in omega arith) c λ r on.
          Runs-weaken _ (omega arith) (
            Runs-continue 0 (expression (parser_advance p)) _
              (run (parser_advance p) r (omega arith))
              λ e q k h. expect-then q right_paren _ (k.ready r) (unfold type_index in omega arith))
