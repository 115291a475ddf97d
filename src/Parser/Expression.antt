-- ===== src/Parser/Expression.antt =====
-- The operands of an expression: src/parser/primary.c and unary.c. A function that returns a node returns
-- `ok` with it or `failed` for NULL, and the parser as it leaves it; `out_of_fuel` is no outcome of the
-- program. `expression` is the recursive call of `parse_expression`, and `n` the fuel of a loop. An
-- allocation is taken to succeed.
use vnt.Base.{
  ℕ, zero, suc, Bool, true, false, ◌&&◌, ◌||◌, none, some, [], ◌∷◌, ◌++◌, leb, if◌then◌else◌,
}
use vnt.Ir.Node.{Name, name_eq, UnaryOperator}
use vnt.Lexer.State.{
  TokenType, identifier, string, integer, float, left_paren, right_paren, comma, dot, ampersand,
  left_bracket, right_bracket, bang, minus, star,
}
use vnt.Parser.Ast.{
  Ast, Asts, no_asts, ast_append, function_call, string_literal, integer_literal, float_literal,
  boolean_literal, null_literal, array_literal, variable, index_expression, member_expression,
  unary_expression,
}
use vnt.Parser.State.{
  Parser, parser_enter_nesting, parser_leave_nesting, parser_note_expression_operator,
  parser_advance, parser_check, parser_consume, parser_token_to_string,
}
use vnt.Base.Int.{int64_min}
use vnt.Parser.Literal.{integer_value, is_min_magnitude, decode_string}

pub data Outcome (A : Type 0) : Type 0 where
  ok : A → Outcome A
  failed out_of_fuel : Outcome A

abbrev pub Parse : Type 0 → Type 0
Parse A = Parser → Outcome A × Parser

abbrev pub continue : {A B : Type 0} → Outcome A → Parser → (A → Parse B) → Outcome B × Parser
continue (ok a) p f = f a p
continue failed p f = (failed, p)
continue out_of_fuel p f = (out_of_fuel, p)

infixl 5 ◌>>=◌ ◌>>◌
abbrev pub ◌>>=◌ : {A B : Type 0} → Parse A → (A → Parse B) → Parse B
◌>>=◌ m f p = continue (m p).0 (m p).1 f

abbrev pub ◌>>◌ : {B : Type 0} → Parse (Unit {0}) → Parse B → Parse B
m >> k = m >>= λ _. k

abbrev pub pure : {A : Type 0} → A → Parse A
pure a p = (ok a, p)

abbrev pub fail : {A : Type 0} → Parse A
fail p = (failed, p)

abbrev pub demand : Bool × Parser → Outcome (Unit {0}) × Parser
demand (true, p) = (ok tt, p)
demand (false, p) = (failed, p)

abbrev pub note_operator : Parse (Unit {0})
note_operator p = demand (parser_note_expression_operator p)

abbrev pub consume : TokenType → Parse (Unit {0})
consume type p = demand (parser_consume p type)

abbrev pub advance : Parse (Unit {0})
advance p = (ok tt, parser_advance p)

-- A token that must stand there, with the cursor moved over it.
abbrev pub expect : TokenType → Parse (Unit {0})
expect type p = if parser_check p type then (ok tt, parser_advance p) else (failed, p)

abbrev pub current_text : Parser → Name
current_text p = parser_token_to_string p p.current

module _ (expression : Parse Ast) where
  -- The elements of an array literal behind the first `n` rounds; a trailing comma is taken.
  unfoldable pub parse_elements : ℕ → Asts → Parse Asts
  parse_elements zero elements = λ p. (out_of_fuel, p)
  parse_elements (suc n) elements = expression >>= λ element p.
      let more = parse_elements n (ast_append elements element) (parser_advance p) in
      if parser_check p comma
      then (if parser_check (parser_advance p) right_bracket
          then (ok (ast_append elements element), parser_advance p)
          else more)
      else (ok (ast_append elements element), p)

  -- The arguments of a call; a trailing comma is refused.
  unfoldable pub parse_arguments : ℕ → Asts → Parse Asts
  parse_arguments zero arguments = λ p. (out_of_fuel, p)
  parse_arguments (suc n) arguments = expression >>= λ argument p.
      let more = parse_arguments n (ast_append arguments argument) (parser_advance p) in
      if parser_check p comma
      then (if parser_check (parser_advance p) right_paren
          then (failed, parser_advance p)
          else more)
      else (ok (ast_append arguments argument), p)

  -- The arguments of a qualified call, up to the closing parenthesis.
  unfoldable pub parse_qualified_arguments : ℕ → Asts → Parse Asts
  parse_qualified_arguments zero arguments = λ p. (out_of_fuel, p)
  parse_qualified_arguments (suc n) arguments = expression >>= λ argument p.
      let more = (consume comma >> parse_qualified_arguments n (ast_append arguments argument)) p in
      if parser_check p right_paren then (ok (ast_append arguments argument), p) else more

  unfoldable pub parse_array : ℕ → Parse Ast
  unfolding parse_elements
  parse_array n = advance >> λ p.
      (do
        elements ← (λ q.
            if parser_check q right_bracket then (ok no_asts, q) else parse_elements n no_asts q)
        expect right_bracket
        pure (array_literal elements))
        p

  unfoldable pub parse_parenthesis : Parse Ast
  parse_parenthesis = do advance; e ← expression; expect right_paren; pure e

  -- The words that are no variables.
  abbrev pub named : Name → Ast
  named name =
      if name_eq name (b't' ∷ b'r' ∷ b'u' ∷ b'e' ∷ [])
      then boolean_literal true
      else if name_eq name (b'f' ∷ b'a' ∷ b'l' ∷ b's' ∷ b'e' ∷ [])
      then boolean_literal false
      else if name_eq name (b'n' ∷ b'u' ∷ b'l' ∷ b'l' ∷ [])
      then null_literal
      else variable name

  unfoldable pub parse_call : ℕ → Name → Parse Ast
  unfolding parse_arguments
  parse_call n name = do
    advance
    arguments ←
        (λ q. if parser_check q right_paren then (ok no_asts, q) else parse_arguments n no_asts q)
    expect right_paren
    pure (function_call name arguments)

  unfoldable pub parse_name : ℕ → Parse Ast
  parse_name n p =
      let name = current_text p in
      if parser_check (parser_advance p) left_paren
      then parse_call n name (parser_advance p)
      else (ok (named name), parser_advance p)

  unfoldable pub parse_integer : Parse Ast
  parse_integer p = elim (integer_value (current_text p)) [
    | none ↦ (failed, p)
    | some v ↦ (ok (integer_literal v), parser_advance p)
  ]

  unfoldable pub parse_float : Parse Ast
  parse_float p =
      if leb 64 p.current.length
      then (failed, p)
      else (ok (float_literal (current_text p)), parser_advance p)

  unfoldable pub parse_primary : ℕ → Parse Ast
  parse_primary n p =
      if parser_check p integer
      then parse_integer p
      else if parser_check p float
      then parse_float p
      else if parser_check p string
      then (ok (string_literal (decode_string (current_text p))), parser_advance p)
      else if parser_check p left_bracket
      then parse_array n p
      else if parser_check p left_paren
      then parse_parenthesis p
      else if parser_check p identifier
      then parse_name n p
      else (failed, p)

  unfoldable pub parse_index : Ast → Parse Ast
  parse_index object = do
    note_operator
    advance
    index ← expression
    expect right_bracket
    pure (index_expression object index)

  -- module__function
  abbrev pub qualified : Name → Name → Name
  qualified object member = object ++ ((b'_' ∷ b'_' ∷ []) ++ member)

  unfoldable pub parse_qualified_call : ℕ → Name → Parse Ast
  parse_qualified_call n name = do
    advance
    arguments ← (λ q.
        if parser_check q right_paren
        then (ok no_asts, q)
        else parse_qualified_arguments n no_asts q)
    consume right_paren
    pure (function_call name arguments)

  -- A member of a variable, with an argument list behind it, is a call of a module's function.
  abbrev pub member_or_call : ℕ → Ast → Name → Parse Ast
  member_or_call n (variable object) member p =
      if parser_check p left_paren
      then parse_qualified_call n (qualified object member) p
      else (ok (member_expression (variable object) member), p)
  member_or_call n object member p = (ok (member_expression object member), p)

  unfoldable pub parse_member : ℕ → Ast → Parse Ast
  parse_member n object = do
    note_operator
    advance
    member ← (λ p. (ok (current_text p), p))
    expect identifier
    member_or_call n object member

  unfoldable pub postfix_loop : ℕ → ℕ → Ast → Parse Ast
  postfix_loop n zero object p = (out_of_fuel, p)
  postfix_loop n (suc fuel) object p =
      let indexed = (parse_index object >>= postfix_loop n fuel) p in
      let selected = (parse_member n object >>= postfix_loop n fuel) p in
      if parser_check p left_bracket
      then indexed
      else if parser_check p dot
      then selected
      else (ok object, p)

  unfoldable pub parse_postfix : ℕ → Parse Ast
  parse_postfix n = parse_primary n >>= postfix_loop n n

  abbrev pub unary_operator : Parser → UnaryOperator
  unary_operator p =
      if parser_check p bang
      then UnaryOperator.not
      else if parser_check p minus
      then UnaryOperator.negate
      else if parser_check p ampersand
      then UnaryOperator.reference
      else UnaryOperator.dereference

  abbrev pub is_unary : Parser → Bool
  is_unary p =
      (parser_check p bang || parser_check p minus)
      || (parser_check p ampersand || parser_check p star)

  -- -9223372036854775808, whose magnitude is no int64_t
  abbrev pub is_min_literal : Parser → Parser → Bool
  is_min_literal p q =
      (parser_check p minus && parser_check q integer) && is_min_magnitude (current_text q)

  -- What is made of the operand: the nesting is left before the result is looked at.
  abbrev pub leave_with : UnaryOperator → Outcome Ast × Parser → Outcome Ast × Parser
  leave_with op (ok a, p) = (ok (unary_expression a op), parser_leave_nesting p)
  leave_with op (failed, p) = (failed, parser_leave_nesting p)
  leave_with op (out_of_fuel, p) = (out_of_fuel, parser_leave_nesting p)

  unfoldable pub parse_unary : ℕ → ℕ → Parse Ast
  parse_unary n zero p = (out_of_fuel, p)
  parse_unary n (suc fuel) p =
      let entered = parser_enter_nesting p in
      let q = parser_advance entered.1 in
      let operand = parse_unary n fuel q in
      if is_unary p
      then (if entered.0
          then (if is_min_literal p q
              then (ok (integer_literal int64_min), parser_leave_nesting (parser_advance q))
              else leave_with (unary_operator p) operand)
          else (failed, entered.1))
      else parse_postfix n p
