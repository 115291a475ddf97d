-- ===== src/Lexer.antt =====
-- src/lexer.c and include/vnt/lexer.h: the scanner. `State` has the lexer's record and its character
-- loops, `Next` the token rules, and the other modules prove what a token is.
pub mod Ctype
pub mod State
pub mod Next
pub mod Walk
pub mod Blank
pub mod Quoted
pub mod Symbols
pub mod Lexeme
pub mod Rules
pub mod Tokens
pub mod Position
pub mod Fits
pub mod Stream
mod Tests
pub mod Room
