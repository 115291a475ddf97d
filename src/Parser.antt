-- ===== src/Parser.antt =====
-- The recursive-descent parser of expressions: src/parser and include/vnt/parser.h, ast.h. `State`,
-- `Literal`, `Expression` and `Levels` have the code, and the other modules follow its runs.
pub mod Ast
pub mod State
pub mod Literal
pub mod Expression
pub mod Levels
pub mod Runs
pub mod Primary
pub mod Postfix
pub mod Binary
pub mod Total
mod Tests
