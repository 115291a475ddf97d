-- ===== src/Parser/State.antt =====
-- The parser's state and its token primitives: src/parser/parser.c, include/vnt/parser.h and
-- src/internal/parser_internal.h. The messages written to stderr are not modelled.
use vnt.Base.{
  ℕ, ◌+◌, ◌-◌, Bool, true, false, ◌&&◌, ltb, leb, ◌==◌, if◌then◌else◌, length, take, drop,
}
use vnt.Ir.Node.{Name, name_eq}
use vnt.Lexer.State.{TokenType, Token, Lexer, eof, identifier, unknown}
use vnt.Lexer.Next.{lexer_next}

pub record Parser : Type 0 where
  pub lexer : Lexer
  pub current : Token
  pub previous : Token
  pub nesting_depth : ℕ
  pub nesting_failed : Bool
  pub expression_depth : ℕ
  pub expression_operator_count : ℕ

abbrev pub max_nesting : ℕ
max_nesting = 256

abbrev pub max_expression_operators : ℕ
max_expression_operators = 256

-- The result is whether the caller may go on.
unfoldable pub parser_enter_nesting : Parser → Bool × Parser
parser_enter_nesting p =
    if p.nesting_failed
    then (false, p)
    else if leb max_nesting p.nesting_depth
    then (false, record p { nesting_failed = true })
    else (true, record p { nesting_depth = p.nesting_depth + 1 })

unfoldable pub parser_leave_nesting : Parser → Parser
parser_leave_nesting p =
    if ltb 0 p.nesting_depth then record p { nesting_depth = p.nesting_depth - 1 } else p

unfoldable pub parser_note_expression_operator : Parser → Bool × Parser
parser_note_expression_operator p =
    if p.nesting_failed
    then (false, p)
    else if leb max_expression_operators p.expression_operator_count
    then (false, record p { nesting_failed = true })
    else (true, record p { expression_operator_count = p.expression_operator_count + 1 })

unfoldable pub parser_advance : Parser → Parser
parser_advance p =
    let r = lexer_next p.lexer in record p { previous = p.current; current = r.0; lexer = r.1 }

-- The enumerators' values, in the order of their declaration.
unfoldable pub type_index : TokenType → ℕ
type_index eof = 0
type_index identifier = 1
type_index TokenType.string = 2
type_index TokenType.integer = 3
type_index TokenType.float = 4
type_index TokenType.left_paren = 5
type_index TokenType.right_paren = 6
type_index TokenType.comma = 7
type_index TokenType.colon = 8
type_index TokenType.dot = 9
type_index TokenType.ampersand = 10
type_index TokenType.left_brace = 11
type_index TokenType.right_brace = 12
type_index TokenType.left_bracket = 13
type_index TokenType.right_bracket = 14
type_index TokenType.equals = 15
type_index TokenType.plus_equals = 16
type_index TokenType.minus_equals = 17
type_index TokenType.star_equals = 18
type_index TokenType.slash_equals = 19
type_index TokenType.percent_equals = 20
type_index TokenType.equal_equal = 21
type_index TokenType.bang = 22
type_index TokenType.bang_equal = 23
type_index TokenType.greater = 24
type_index TokenType.less = 25
type_index TokenType.greater_equal = 26
type_index TokenType.less_equal = 27
type_index TokenType.plus = 28
type_index TokenType.minus = 29
type_index TokenType.star = 30
type_index TokenType.slash = 31
type_index TokenType.percent = 32
type_index TokenType.and_and = 33
type_index TokenType.or_or = 34
type_index unknown = 35

unfoldable pub parser_check : Parser → TokenType → Bool
unfolding type_index
parser_check p type = type_index p.current.type == type_index type

unfoldable pub parser_consume : Parser → TokenType → Bool × Parser
unfolding parser_check
parser_consume p type = if parser_check p type then (true, parser_advance p) else (false, p)

-- A token's text.
unfoldable pub parser_token_to_string : Parser → Token → Name
parser_token_to_string p t = take t.length (drop t.start p.lexer.source)

unfoldable pub parser_is_token : Parser → Token → Name → Bool
unfolding parser_token_to_string type_index
parser_is_token p t word =
    type_index t.type == type_index identifier
    && (t.length == length word && name_eq (parser_token_to_string p t) word)

abbrev pub blank_token : Token
blank_token = record { type = unknown; start = 0; length = 0; line = 0; column = 0 }

unfoldable pub parser_init : Lexer → Parser
parser_init l = parser_advance (record {
  lexer = l;
  current = blank_token;
  previous = blank_token;
  nesting_depth = 0;
  nesting_failed = false;
  expression_depth = 0;
  expression_operator_count = 0;
})
