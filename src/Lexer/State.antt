-- ===== src/Lexer/State.antt =====
-- The lexer's state and its loops: src/lexer.c lines 6 to 156, include/vnt/lexer.h.
-- The source is the list of the bytes before the terminating NUL, a position is an offset into it,
-- and a `const char *` into the source is such an offset. The int fields of Lexer and Token, and the
-- cast to int in make_token, are numbers without a bound here; Lexer.Fits is about their bounds.
use vnt.Base.{
  ℕ, zero, suc, ◌+◌, ◌-◌, Bool, not, ◌&&◌, ◌||◌, List, length, get_or, ◌==◌, if◌then◌else◌,
}
use vnt.Lexer.Ctype.{isspace, isdigit, isalnum, isxdigit}

pub data TokenType : Type 0 where
  eof : TokenType
  identifier string integer float : TokenType
  left_paren right_paren comma colon dot ampersand : TokenType
  left_brace right_brace left_bracket right_bracket : TokenType
  equals plus_equals minus_equals star_equals slash_equals percent_equals : TokenType
  equal_equal bang bang_equal : TokenType
  greater less greater_equal less_equal : TokenType
  plus minus star slash percent : TokenType
  and_and or_or : TokenType
  unknown : TokenType

pub record Token : Type 0 where
  pub type : TokenType
  pub start : ℕ
  pub length : ℕ
  pub line : ℕ
  pub column : ℕ

pub record Lexer : Type 0 where
  pub source : List ℕ
  pub current : ℕ
  pub line : ℕ
  pub column : ℕ
  pub token_start_line : ℕ
  pub token_start_column : ℕ

-- The byte at an offset; the byte behind the last is the NUL.
abbrev pub char_at : List ℕ → ℕ → ℕ
char_at s i = get_or s i 0

unfoldable pub peek : Lexer → ℕ
peek l = char_at l.source l.current

-- Where the cursor stands after reading `c`.
abbrev pub moved : ℕ → Lexer → Lexer
moved c l =
    if c == 10
    then record l { line = l.line + 1; column = 1 }
    else if c == 0
    then l
    else record l { column = l.column + 1 }

-- `advance` without the character that it returns.
unfoldable pub advance : Lexer → Lexer
unfolding peek
advance l = moved (peek l) (record l { current = l.current + 1 })

-- The bytes left, the NUL counted: fuel for the loops below, each of whose rounds reads a byte.
abbrev pub room : Lexer → ℕ
room l = suc (length l.source) - l.current

-- while (p(peek(lexer))) advance(lexer);
unfoldable pub advance_while : (ℕ → Bool) → ℕ → Lexer → Lexer
advance_while p zero l = l
advance_while p (suc fuel) l =
    let rest = advance_while p fuel (advance l) in if p (peek l) then rest else l

abbrev pub in_comment : ℕ → Bool
in_comment c = not (c == 0) && not (c == 10)

unfoldable pub whitespace_loop : ℕ → Lexer → Lexer
whitespace_loop zero l = l
whitespace_loop (suc fuel) l =
    let spaced = whitespace_loop fuel (advance l) in
    let commented = whitespace_loop fuel (advance_while in_comment (room l) l) in
    if isspace (peek l) then spaced else if peek l == b'#' then commented else l

unfoldable pub skip_whitespace : Lexer → Lexer
skip_whitespace l = whitespace_loop (room l) l

unfoldable pub make_token : Lexer → TokenType → ℕ → Token
make_token l type start = record {
  type = type;
  start = start;
  length = l.current - start;
  line = l.token_start_line;
  column = l.token_start_column;
}

unfoldable pub in_identifier : ℕ → Bool
unfolding isalnum
in_identifier c = isalnum c || c == b'_'

unfoldable pub identifier_rule : Lexer → ℕ → Token × Lexer
identifier_rule l start =
    let l' = advance_while in_identifier (room l) l in (make_token l' identifier start, l')

-- The digits behind the point of a float.
abbrev pub number_tail : Lexer → ℕ → Token × Lexer
number_tail l start =
    let l' = advance_while isdigit (room (advance l)) (advance l) in
    if peek l == b'.' && isdigit (char_at l.source (l.current + 1))
    then (make_token l' float start, l')
    else (make_token l integer start, l)

unfoldable pub number_rule : Lexer → ℕ → Token × Lexer
number_rule l start =
    let l' = advance_while isxdigit (room (advance l)) (advance l) in
    if char_at l.source start == b'0' && (peek l == b'x' || peek l == b'X')
    then (make_token l' integer start, l')
    else number_tail (advance_while isdigit (room l) l) start

-- A backslash takes the next byte with it, unless that is the NUL.
unfoldable pub string_loop : ℕ → Lexer → Lexer
string_loop zero l = l
string_loop (suc fuel) l =
    let escaped = string_loop fuel (advance (advance l)) in
    let plain = string_loop fuel (advance l) in
    if not (peek l == 34) && not (peek l == 0)
    then (if peek l == 92 then (if peek (advance l) == 0 then advance l else escaped) else plain)
    else l

-- The token's text is what stands between the quotes.
abbrev pub unquoted : Token → Token
unquoted t = record t { start = t.start + 1; length = t.length - 2 }

unfoldable pub string_rule : Lexer → ℕ → Token × Lexer
string_rule l start =
    let l' = string_loop (room l) l in
    if peek l' == 0
    then (make_token l' unknown start, l')
    else (unquoted (make_token (advance l') string start), advance l')

unfoldable pub lexer_init : List ℕ → Lexer
lexer_init source = record {
  source = source;
  current = 0;
  line = 1;
  column = 1;
  token_start_line = 1;
  token_start_column = 1;
}
