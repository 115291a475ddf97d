-- ===== src/Parser/Levels.antt =====
-- The levels of binary operators and `parse_expression`: src/parser/binary.c. `n` is the fuel of a loop.
use vnt.Base.{ℕ, zero, suc, ◌+◌, ◌-◌, Option, none, some, ◌==◌, if◌then◌else◌}
use vnt.Ir.Node.{BinaryOperator}
use vnt.Lexer.State.{
  equal_equal, bang_equal, greater, less, greater_equal, less_equal, plus, minus, star, slash,
  percent, and_and, or_or,
}
use vnt.Parser.Ast.{Ast, binary_expression}
use vnt.Parser.State.{Parser, parser_enter_nesting, parser_leave_nesting, parser_check}
use vnt.Parser.Expression.{
  Outcome, ok, failed, out_of_fuel, Parse, ◌>>=◌, ◌>>◌, note_operator, advance, parse_unary,
}

-- The loop of a level of binary operators, all of the same precedence and associated to the left.
unfoldable pub binary_loop : (Parser → Option BinaryOperator) → Parse Ast → ℕ → Ast → Parse Ast
binary_loop operator operand zero left p = (out_of_fuel, p)
binary_loop operator operand (suc fuel) left p =
    let more = λ (op : BinaryOperator).
      (do
        advance
        note_operator
        right ← operand
        binary_loop operator operand fuel (binary_expression left right op))
        p in
    elim (operator p) [ none ↦ (ok left, p) | some op ↦ more op ]

abbrev pub binary_level : (Parser → Option BinaryOperator) → Parse Ast → ℕ → Parse Ast
binary_level operator operand n = operand >>= binary_loop operator operand n

abbrev pub multiplication_operator : Parser → Option BinaryOperator
multiplication_operator p =
    if parser_check p star
    then some BinaryOperator.multiply
    else if parser_check p slash
    then some BinaryOperator.divide
    else if parser_check p percent
    then some BinaryOperator.modulo
    else none

abbrev pub addition_operator : Parser → Option BinaryOperator
addition_operator p =
    if parser_check p plus
    then some BinaryOperator.add
    else if parser_check p minus
    then some BinaryOperator.subtract
    else none

abbrev pub comparison_operator : Parser → Option BinaryOperator
comparison_operator p =
    if parser_check p greater
    then some BinaryOperator.greater
    else if parser_check p less
    then some BinaryOperator.less
    else if parser_check p greater_equal
    then some BinaryOperator.greater_equal
    else if parser_check p less_equal
    then some BinaryOperator.less_equal
    else none

abbrev pub equality_operator : Parser → Option BinaryOperator
equality_operator p =
    if parser_check p equal_equal
    then some BinaryOperator.equal
    else if parser_check p bang_equal
    then some BinaryOperator.not_equal
    else none

abbrev pub and_operator : Parser → Option BinaryOperator
and_operator p = if parser_check p and_and then some BinaryOperator.and else none

abbrev pub or_operator : Parser → Option BinaryOperator
or_operator p = if parser_check p or_or then some BinaryOperator.or else none

module _ (expression : Parse Ast) (n : ℕ) where
  unfoldable pub parse_multiplication : Parse Ast
  parse_multiplication = binary_level multiplication_operator (parse_unary expression n n) n

  unfoldable pub parse_addition : Parse Ast
  parse_addition = binary_level addition_operator parse_multiplication n

  unfoldable pub parse_comparison : Parse Ast
  parse_comparison = binary_level comparison_operator parse_addition n

  unfoldable pub parse_equality : Parse Ast
  parse_equality = binary_level equality_operator parse_comparison n

  unfoldable pub parse_and : Parse Ast
  parse_and = binary_level and_operator parse_equality n

  unfoldable pub parse_or : Parse Ast
  parse_or = binary_level or_operator parse_and n

-- A failure of the nesting inside makes the whole expression NULL.
abbrev pub leave_expression : Outcome Ast × Parser → Outcome Ast × Parser
leave_expression (r, p) =
    let q = parser_leave_nesting (record p { expression_depth = p.expression_depth - 1 }) in
    if q.nesting_failed then (failed, q) else (r, q)

abbrev pub reset_operators : Parser → Parser
reset_operators p =
    if p.expression_depth == 0 then record p { expression_operator_count = 0 } else p

unfoldable pub parse_expression : ℕ → ℕ → Parse Ast
parse_expression n zero p = (out_of_fuel, p)
parse_expression n (suc fuel) p =
    let entered = parser_enter_nesting (reset_operators p) in
    let q = record entered.1 { expression_depth = entered.1.expression_depth + 1 } in
    let inner = parse_or (parse_expression n fuel) n q in
    if entered.0 then leave_expression inner else (failed, entered.1)
