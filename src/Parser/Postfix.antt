-- ===== src/Parser/Postfix.antt =====
-- `parse_primary`, `parse_postfix` and `parse_unary` of src/parser run to an end and are balanced, for
-- any `expression` that is.
use vnt.Base.{ℕ, zero, suc, ◌+◌, ◌≤◌, ◌≡◌, inl, inr, true, arith, leb, Option-cases, if_rule}
use vnt.Lexer.State.{
  integer, float, string, identifier, dot, left_paren, right_paren, left_bracket, right_bracket,
}
use vnt.Parser.Ast.{Ast, no_asts, variable}
use vnt.Ir.Node.{Name}
use vnt.Parser.Literal.{integer_value}
use vnt.Parser.State.{Parser, parser_advance, parser_check, type_index}
use vnt.Parser.Expression.{
  Parse, expect, current_text, parse_call, parse_name, parse_integer, parse_float, parse_primary,
  parse_index, parse_member, member_or_call, parse_qualified_call, postfix_loop, parse_postfix,
}
use vnt.Parser.Runs.{
  left, IsReady, Keeps-refl, Runs, Runs-failed, Runs-weaken, Runs-continue, note_operator-then,
  expect-Runs,
}
use vnt.Parser.Primary.{
  advance-then, Runs-pure, expect-then, consume-then, arguments-Runs, qualified_arguments-Runs,
  array-Runs, parenthesis-Runs,
}

module _ (expression : Parse Ast) (m : ℕ)
    (run : (q : Parser) → IsReady q → left q + 1 ≤ m → Runs 1 q (expression q)) (n : ℕ)
    (mn : m + 1 ≤ n) where
  call-Runs :
      (name : Name) (p : Parser)
      → IsReady p
      → left p ≤ m
      → parser_check p left_paren ≡ true
      → Runs 1 p (parse_call expression n name p)
  unfolding parse_call
  call-Runs name p ready lm c =
      advance-then p left_paren ready (unfold type_index in omega arith) c λ r on.
        Runs-continue 0 _ _
          (if_rule (Runs 0 (parser_advance p)) (parser_check (parser_advance p) right_paren)
            (λ _. Runs-pure _ no_asts)
            (λ _.
              arguments-Runs expression m run n no_asts (parser_advance p) r (omega arith)
                (omega arith)))
          λ arguments q k h.
            expect-then q right_paren _ (k.ready r) (unfold type_index in omega arith)

  name-Runs :
      (p : Parser)
      → IsReady p
      → left p ≤ m
      → parser_check p identifier ≡ true
      → Runs 1 p (parse_name expression n p)
  unfolding parse_name
  name-Runs p ready lm c =
      advance-then p identifier ready (unfold type_index in omega arith) c λ r on.
        if_rule (Runs 0 (parser_advance p)) (parser_check (parser_advance p) left_paren)
          (λ c2. Runs-weaken _ (omega arith) (call-Runs _ (parser_advance p) r (omega arith) c2))
          (λ _. Runs-pure _ _)

  integer-Runs :
      (p : Parser)
      → IsReady p
      → parser_check p integer ≡ true
      → Runs 1 p (parse_integer expression p)
  unfolding parse_integer
  integer-Runs p ready c = elim (Option-cases (integer_value (current_text p))) [
    | inl bad ↦ rw (bad, parse_integer) (Runs-failed 1 (Keeps-refl p))
    | inr good ↦
        rw (good.1, parse_integer)
          (advance-then p integer ready (unfold type_index in omega arith) c
            (λ r on. Runs-pure _ _))
  ]

  float-Runs :
      (p : Parser) → IsReady p → parser_check p float ≡ true → Runs 1 p (parse_float expression p)
  unfolding parse_float
  float-Runs p ready c =
      if_rule (Runs 1 p) (leb 64 p.current.length) (λ _. Runs-failed 1 (Keeps-refl p))
        (λ _.
          advance-then p float ready (unfold type_index in omega arith) c (λ r on. Runs-pure _ _))

  primary-Runs : (p : Parser) → IsReady p → left p ≤ m → Runs 1 p (parse_primary expression n p)
  unfolding parse_primary
  primary-Runs p ready lm =
      if_rule (Runs 1 p) (parser_check p integer) (λ c. integer-Runs p ready c)
        λ _.
          if_rule (Runs 1 p) (parser_check p float) (λ c. float-Runs p ready c)
            λ _.
              if_rule (Runs 1 p) (parser_check p string)
                (λ c.
                  advance-then p string ready (unfold type_index in omega arith) c
                    (λ r on. Runs-pure _ _))
                λ _.
                  if_rule (Runs 1 p) (parser_check p left_bracket)
                    (λ c. array-Runs expression m run n mn p ready lm c)
                    λ _.
                      if_rule (Runs 1 p) (parser_check p left_paren)
                        (λ c. parenthesis-Runs expression m run n mn p ready lm c)
                        λ _.
                          if_rule (Runs 1 p) (parser_check p identifier)
                            (λ c. name-Runs p ready lm c) (λ _. Runs-failed 1 (Keeps-refl p))

  index-Runs :
      (object : Ast) (p : Parser)
      → IsReady p
      → left p ≤ m
      → parser_check p left_bracket ≡ true
      → Runs 1 p (parse_index expression object p)
  unfolding parse_index parser_check
  index-Runs object p ready lm c = note_operator-then p _ λ q kq same.
      let at : parser_check q left_bracket ≡ true = rw same c in
      let onward = kq.onward in
      advance-then q left_bracket (kq.ready ready) (unfold type_index in omega arith) at λ r on.
        Runs-weaken _ (omega arith) (
          Runs-continue 0 (expression (parser_advance q)) _ (run (parser_advance q) r (omega arith))
            λ i s k h. expect-then s right_bracket _ (k.ready r) (unfold type_index in omega arith))

  qualified_call-Runs :
      (name : Name) (p : Parser)
      → IsReady p
      → left p ≤ m
      → parser_check p left_paren ≡ true
      → Runs 1 p (parse_qualified_call expression n name p)
  unfolding parse_qualified_call
  qualified_call-Runs name p ready lm c =
      advance-then p left_paren ready (unfold type_index in omega arith) c λ r on.
        Runs-continue 0 _ _
          (if_rule (Runs 0 (parser_advance p)) (parser_check (parser_advance p) right_paren)
            (λ _. Runs-pure _ no_asts)
            (λ _.
              qualified_arguments-Runs expression m run n no_asts (parser_advance p) r (omega arith)
                (omega arith)))
          λ arguments q k h.
            consume-then q right_paren _ (k.ready r) (unfold type_index in omega arith)
              (λ s rs hs. Runs-pure s _)

  member_or_call-Runs :
      (object : Ast) (member : Name) (p : Parser)
      → IsReady p
      → left p ≤ m
      → Runs 0 p (member_or_call expression n object member p)
  member_or_call-Runs (variable object) member p ready lm =
      if_rule (Runs 0 p) (parser_check p left_paren)
        (λ c. Runs-weaken _ (omega arith) (qualified_call-Runs _ p ready lm c)) (λ _. Runs-pure p _)
  member_or_call-Runs _ member p ready lm = Runs-pure p _

  member-Runs :
      (object : Ast) (p : Parser)
      → IsReady p
      → left p ≤ m
      → parser_check p dot ≡ true
      → Runs 1 p (parse_member expression n object p)
  unfolding parse_member parser_check
  member-Runs object p ready lm c = note_operator-then p _ λ q kq same.
      let at : parser_check q dot ≡ true = rw same c in
      let onward = kq.onward in
      advance-then q dot (kq.ready ready) (unfold type_index in omega arith) at λ r on.
        Runs-weaken _ (omega arith) (
          Runs-continue 0 (expect identifier (parser_advance q)) _
            (expect-Runs (parser_advance q) r identifier (unfold type_index in omega arith))
            λ u s k h. member_or_call-Runs object _ s (k.ready r) (omega arith))

  postfix_loop-Runs :
      (fuel : ℕ) (object : Ast) (p : Parser)
      → IsReady p
      → left p ≤ m
      → left p + 1 ≤ fuel
      → Runs 0 p (postfix_loop expression n fuel object p)
  unfolding postfix_loop
  postfix_loop-Runs zero object p ready lm lf = absurd (omega arith)
  postfix_loop-Runs (suc fuel) object p ready lm lf =
      if_rule (Runs 0 p) (parser_check p left_bracket)
        (λ c. Runs-weaken _ (omega arith) (
          Runs-continue 0 (parse_index expression object p) _ (index-Runs object p ready lm c)
            λ a q k h. postfix_loop-Runs fuel a q (k.ready ready) (omega arith) (omega arith)))
        λ _.
          if_rule (Runs 0 p) (parser_check p dot)
            (λ c. Runs-weaken _ (omega arith) (
              Runs-continue 0 (parse_member expression n object p) _
                (member-Runs object p ready lm c)
                λ a q k h. postfix_loop-Runs fuel a q (k.ready ready) (omega arith) (omega arith)))
            (λ _. Runs-pure p object)

  pub postfix-Runs : (p : Parser) → IsReady p → left p ≤ m → Runs 1 p (parse_postfix expression n p)
  unfolding parse_postfix
  postfix-Runs p ready lm =
      Runs-continue 0 (parse_primary expression n p) _ (primary-Runs p ready lm)
        λ a q k h. postfix_loop-Runs n a q (k.ready ready) (omega arith) (omega arith)
