-- ===== src/Lexer/Tests.antt =====
-- Runs of `lexer_next` of src/lexer.c on the source ` a<=1`.
use vnt.Base.{ℕ, ◌≤◌, ◌<◌, ◌≡◌, refl, ◌≢◌, List, [], ◌∷◌, map, arith, length}
use vnt.Lexer.Ctype.{isspace, isalpha}
use vnt.Lexer.State.{
  whitespace_loop, advance, identifier_rule, make_token, advance_while, in_identifier, number_rule,
  Token, Lexer, eof, identifier, integer, less_equal, room, peek, skip_whitespace, lexer_init,
}
use vnt.Lexer.Next.{lexer_next, punctuation}
use vnt.Lexer.Symbols.{IsLongest, punctuation-IsLongest}
use vnt.Lexer.Tokens.{Reads, Progress, lexer_next-Reads}
use vnt.Lexer.Position.{IsLocated, IsPlaced, IsLocated-init}
use vnt.Lexer.Fits.{
  int_max, FitsInt, CountersFit, lexer_next-IsPlaced_fits, lexer_next-Progress_fits,
}
use vnt.Lexer.Stream.{Stream, all_tokens, all_tokens-Stream}

abbrev sample : List ℕ
sample = 32 ∷ b'a' ∷ b'<' ∷ b'=' ∷ b'1' ∷ []

abbrev start : Lexer
start = lexer_init sample

start_inside : start.current ≤ length start.source
unfolding lexer_init
start_inside = omega arith

start_short : length start.source < int_max
unfolding lexer_init
start_short = omega arith

first_is_name : (lexer_next start).0.type ≡ identifier
unfolding lexer_next peek skip_whitespace whitespace_loop lexer_init isspace advance isalpha
    identifier_rule make_token
first_is_name = refl

types_read :
    map (λ (t : Token). t.type) (all_tokens 6 start) ≡ identifier ∷ less_equal ∷ integer ∷ eof ∷ []
unfolding all_tokens lexer_next peek skip_whitespace whitespace_loop lexer_init isspace advance
    isalpha identifier_rule make_token advance_while in_identifier punctuation number_rule
types_read = refl

start_room : room start ≤ 6
unfolding lexer_init
start_room = omega arith

all_tokens-Stream_example :
    Stream start (all_tokens 6 start) × (length (all_tokens 6 start) ≤ room start)
all_tokens-Stream_example =
    all_tokens-Stream 6 start start_inside start_short (IsLocated-init sample) start_room

lexer_next-Reads_example : Reads start (lexer_next start)
lexer_next-Reads_example = lexer_next-Reads start start_inside

first_is_token : (lexer_next start).0.type ≢ eof
first_is_token e = let f = first_is_name in cc

lexer_next-Progress_fits_example :
    Progress start (lexer_next start)
    × ((lexer_next start).0.length ≤ int_max)
    × ((lexer_next start).1.current ≤ int_max)
lexer_next-Progress_fits_example =
    lexer_next-Progress_fits start start_inside start_short first_is_token

lexer_next-IsPlaced_fits_example :
    IsPlaced sample (lexer_next start).0
    × FitsInt (lexer_next start)
    × ((lexer_next start).0.type ≢ eof
        → IsLocated (lexer_next start).1 × CountersFit (lexer_next start).1)
unfolding lexer_init
lexer_next-IsPlaced_fits_example =
    lexer_next-IsPlaced_fits start start_inside start_short (IsLocated-init sample)

-- The cursor behind `<`.
abbrev behind_less : Lexer
behind_less = record start { current = 3 }

punctuation-IsLongest_example : IsLongest b'<' behind_less 2 (punctuation behind_less 2 b'<')
punctuation-IsLongest_example = punctuation-IsLongest behind_less 2 b'<'
