-- ===== src/Lib.antt =====
-- A verification library for the front and middle end of the VNT compiler.
--
-- The program reads a source text into tokens (src/lexer.c), parses the tokens into a syntax tree
-- (src/parser), lowers that to a flat program tree (src/compiler/ir_lower.c, ir.c), builds a control-flow
-- graph over it, cleans the graph up and analyses it (src/compiler/cfg.c), and generates code. The parser
-- pulls tokens one call at a time; the analyses read the program tree and the graph and change neither.
--
-- What models what:
--   Lexer    src/lexer.c, include/vnt/lexer.h. The record Lexer is the C struct, with the source the list of
--            the bytes before the NUL and a pointer into it an offset; lexer_next and each rule keep
--            their names. Lexer.Lexeme, Lexer.Symbols and Lexer.Blank describe the tokens without the code.
--   Parser   src/parser/parser.c, primary.c, unary.c, binary.c, include/vnt/parser.h. A parse function takes
--            the parser and returns its outcome and the parser as it leaves it.
--   Ir       include/vnt/ir.h, include/vnt/operators.h, and vnt_ir_validate of src/compiler/ir.c.
--            Ir.Optimize models of vnt_ir_optimize the folding, hir_fold_node (Values, Fold), with the
--            arithmetic of doubles as a parameter (Values.Floats), and the environment of the propagation
--            (Known). Ir.Optimize.Computes says what the operators compute, Ir.Optimize.Meaning what an
--            expression is worth, and Ir.Optimize.Exact that folding an operator agrees with them.
--            Ir.Walk, Ir.Order and Ir.Forest show that a tree it accepts has no cycle: a rank falls along its links.
--   Cfg      include/vnt/cfg.h and src/compiler/cfg.c: vnt_cfg_build with the statements it walks (Build),
--            simplify_constant_branches and prune_unreachable_blocks (Prune, Returned), vnt_cfg_validate,
--            collect_variables, collect_block_effects, vnt_cfg_compute_liveness and its queries,
--            vnt_cfg_check_definite_assignment. A bit matrix is a function of block and variable.
--            Cfg.Liveness.Paths and Cfg.Assigned.Paths say by paths of the graph what the bits mean, Cfg.Access
--            which variables a statement reads and writes, Cfg.ByName both together, and Cfg.Collected which
--            names a program mentions.
--   Base     the helpers that the parts share.
--
-- Bounds and fuel: indices are size_t, and VNT_IR_NO_NODE is 2 ^ 64 - 1. The int fields of Lexer and Token
-- and the cast to int in make_token are unbounded numbers; Lexer.Fits and Lexer.Stream bound them by INT_MAX
-- on a source shorter than INT_MAX. The conversion of child_count to int and the int counters in
-- validate_node_shape are numbers without a bound. A character loop of the lexer has
-- the bytes left for fuel, each round reading one. The data-flow loops run on twice the cells of the bit
-- matrices and one more round; each round that changes a cell changes it for good, so they end before.
-- Folding has fuel for twice the nodes, one for each node gone down to and one for each gone along.
-- A walk over the program tree has fuel by the rank of a node, which is no more than the node count; the
-- search for reachable blocks has a round for each block and one more, each round reaching a new one. The
-- parser's functions take their fuel as a parameter; the bytes left and one more are enough.
--
-- Not modelled: statements of the parser, lowering, type checking, the other passes of the optimizer and
-- code generation; diagnostics' texts, files and processes; the failure of an allocation, but for the
-- check that a matrix has no more cells than a size_t counts.
pub mod Base
pub mod Lexer
pub mod Ir
pub mod Cfg
pub mod Parser
