-- ===== src/Lexer/Lexeme.antt =====
-- The grammar of a token of src/lexer.c, as a relation between two cursors.
use vnt.Base.{ℕ, ◌+◌, ◌<◌, ◌≡◌, Bool, true, false, ◌&&◌, ◌||◌, ◌==◌, length}
use vnt.Lexer.Ctype.{isalpha, isalnum, isdigit, isxdigit}
use vnt.Lexer.State.{
  TokenType, Token, Lexer, eof, identifier, string, integer, float, unknown, peek, advance,
}
use vnt.Lexer.Walk.{Walk, Advances}
use vnt.Lexer.Quoted.{Quoted, Unclosed}
use vnt.Lexer.Symbols.{Symbol}

abbrev pub starts_identifier : ℕ → Bool
starts_identifier c = isalpha c || c == b'_'

abbrev pub is_x : ℕ → Bool
is_x c = c == b'x' || c == b'X'

abbrev pub continues_identifier : ℕ → Bool
continues_identifier c = isalnum c || c == b'_'

-- The first bytes of the tokens that are no symbols.
abbrev pub starts_longer : ℕ → Bool
starts_longer c = starts_identifier c || (isdigit c || c == 34)

-- `Shape l m t`: the bytes from the cursor of `l` to that of `m` are a whole token of type `t`, and
-- no longer run of bytes is.
pub data Shape (l m : Lexer) : TokenType → Type 0 where
  word :
      starts_identifier (peek l) ≡ true
      → Walk continues_identifier (advance l) m
      → continues_identifier (peek m) ≡ false
      → Shape l m identifier
  hexadecimal :
      peek l ≡ b'0'
      → is_x (peek (advance l)) ≡ true
      → Walk isxdigit (advance (advance l)) m
      → isxdigit (peek m) ≡ false
      → Shape l m integer
  decimal :
      isdigit (peek l) ≡ true
      → (peek l == b'0' && is_x (peek (advance l))) ≡ false
      → Walk isdigit (advance l) m
      → isdigit (peek m) ≡ false
      → (peek m == b'.' && isdigit (peek (advance m))) ≡ false
      → Shape l m integer
  fraction :
      {k : Lexer}
      → isdigit (peek l) ≡ true
      → (peek l == b'0' && is_x (peek (advance l))) ≡ false
      → Walk isdigit (advance l) k
      → peek k ≡ b'.'
      → isdigit (peek (advance k)) ≡ true
      → Walk isdigit (advance k) m
      → isdigit (peek m) ≡ false
      → Shape l m float
  quoted :
      {k : Lexer}
      → peek l ≡ 34
      → Quoted (advance l) k
      → peek k ≡ 34
      → m ≡ advance k
      → Shape l m string
  unterminated : {k : Lexer} → peek l ≡ 34 → Quoted (advance l) k → Unclosed k m → Shape l m unknown
  symbol :
      {t : TokenType}
      → starts_longer (peek l) ≡ false
      → Symbol (peek l) (advance l) m t
      → Shape l m t

-- Where a token's text stands: the whole token, or what is between the quotes of a string.
abbrev pub Extent : TokenType → ℕ → ℕ → ℕ → ℕ → Type 0
Extent string start length from to = (start ≡ from + 1) × (start + length + 1 ≡ to)
Extent eof start length from to = (start ≡ from) × (start + length ≡ to)
Extent _ start length from to = (start ≡ from) × (start + length ≡ to)

-- What a call that reads a token at the cursor of `l` returns.
pub record Lexed (l : Lexer) (r : Token × Lexer) : Type 0 where
  pub shape : Shape l r.1 r.0.type
  pub walk : Advances l r.1
  pub moved : l.current < r.1.current
  pub extent : Extent r.0.type r.0.start r.0.length l.current r.1.current
  pub line : r.0.line ≡ l.token_start_line
  pub column : r.0.column ≡ l.token_start_column
