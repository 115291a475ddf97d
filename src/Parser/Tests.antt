-- ===== src/Parser/Tests.antt =====
-- Runs of `parse_expression` of src/parser/binary.c on the source `1+-x`.
use vnt.Base.{ℕ, ◌≤◌, ◌<◌, ap, List, [], ◌∷◌, arith, length}
use vnt.Lexer.State.{lexer_init, room}
use vnt.Lexer.Room.{lexer_next-Within}
use vnt.Lexer.Fits.{int_max}
use vnt.Parser.State.{Parser, parser_init, parser_advance}
use vnt.Parser.Levels.{parse_expression}
use vnt.Parser.Runs.{parser_init-IsReady, parser_init-IsWithin, left-parser_init}
use vnt.Parser.Total.{Served, parse_expression-Served}

abbrev sum : List ℕ
sum = b'1' ∷ b'+' ∷ b'-' ∷ b'x' ∷ []

abbrev sum_parser : Parser
sum_parser = parser_init (lexer_init sum)

sum_inside : (lexer_init sum).current ≤ length (lexer_init sum).source
unfolding lexer_init
sum_inside = omega arith

room_fits : room (lexer_init sum) ≤ 5
unfolding lexer_init
room_fits = omega arith

short : length (lexer_init sum).source < int_max
unfolding lexer_init
short = omega arith

sum_short : length sum_parser.lexer.source < int_max
unfolding parser_init parser_advance
sum_short =
    let w = lexer_next-Within (lexer_init sum) sum_inside in omega (arith, short, ap length w.0)

parse_expression-Served_example : Served sum_parser (parse_expression 5 5 sum_parser)
parse_expression-Served_example =
    parse_expression-Served 5 5 sum_parser (omega arith)
      (parser_init-IsReady (lexer_init sum) sum_inside)
      (parser_init-IsWithin (lexer_init sum) sum_inside) sum_short
      (omega (arith, left-parser_init (lexer_init sum) sum_inside, room_fits))
