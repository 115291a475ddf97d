-- ===== src/Lexer/Next.antt =====
-- `lexer_next` of src/lexer.c.
use vnt.Base.{ℕ, ◌||◌, ◌==◌, if◌then◌else◌}
use vnt.Lexer.Ctype.{isalpha, isdigit}
use vnt.Lexer.State.{
  TokenType, Token, Lexer, eof, left_paren, right_paren, comma, colon, dot, ampersand, left_brace,
  right_brace, left_bracket, right_bracket, equals, plus_equals, minus_equals, star_equals,
  slash_equals, percent_equals, equal_equal, bang, bang_equal, greater, less, greater_equal,
  less_equal, plus, minus, star, slash, percent, and_and, or_or, unknown, peek, advance,
  skip_whitespace, make_token, identifier_rule, number_rule, string_rule,
}

abbrev pub one : Lexer → ℕ → TokenType → Token × Lexer
one l start type = (make_token l type start, l)

-- `second` behind the first character makes the longer operator.
abbrev pub one_or_two : Lexer → ℕ → ℕ → TokenType → TokenType → Token × Lexer
one_or_two l start second longer shorter =
    if peek l == second
    then (make_token (advance l) longer start, advance l)
    else (make_token l shorter start, l)

-- The switch on the first character `c`, the cursor behind it.
unfoldable pub punctuation : Lexer → ℕ → ℕ → Token × Lexer
punctuation l start c =
    if c == b'('
    then one l start left_paren
    else if c == b')'
    then one l start right_paren
    else if c == b'{'
    then one l start left_brace
    else if c == b'}'
    then one l start right_brace
    else if c == b'['
    then one l start left_bracket
    else if c == b']'
    then one l start right_bracket
    else if c == b','
    then one l start comma
    else if c == b':'
    then one l start colon
    else if c == b'.'
    then one l start dot
    else if c == b'='
    then one_or_two l start b'=' equal_equal equals
    else if c == b'!'
    then one_or_two l start b'=' bang_equal bang
    else if c == b'>'
    then one_or_two l start b'=' greater_equal greater
    else if c == b'<'
    then one_or_two l start b'=' less_equal less
    else if c == b'+'
    then one_or_two l start b'=' plus_equals plus
    else if c == b'-'
    then one_or_two l start b'=' minus_equals minus
    else if c == b'*'
    then one_or_two l start b'=' star_equals star
    else if c == b'/'
    then one_or_two l start b'=' slash_equals slash
    else if c == b'%'
    then one_or_two l start b'=' percent_equals percent
    else if c == b'&'
    then one_or_two l start b'&' and_and ampersand
    else if c == b'|'
    then one_or_two l start b'|' or_or unknown
    else one l start unknown

-- The position of the token that begins at the cursor.
abbrev pub mark_start : Lexer → Lexer
mark_start l = record l { token_start_line = l.line; token_start_column = l.column }

-- The token that begins at the cursor, by its first character.
unfoldable pub token_here : Lexer → Token × Lexer
token_here l =
    let c = peek l in
    let start = l.current in
    let l' = advance l in
    if c == 0
    then one l' start eof
    else if isalpha c || c == b'_'
    then identifier_rule l' start
    else if isdigit c
    then number_rule l' start
    else if c == 34
    then string_rule l' start
    else punctuation l' start c

unfoldable pub lexer_next : Lexer → Token × Lexer
unfolding token_here
lexer_next l = token_here (mark_start (skip_whitespace l))
