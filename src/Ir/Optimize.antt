-- ===== src/Ir/Optimize.antt =====
-- `vnt_ir_optimize` of src/compiler/ir.c and its passes.
pub mod Values
pub mod Range
pub mod Fold
pub mod Writes
pub mod Meaning
pub mod Computes
pub mod Exact
pub mod Keeps
pub mod Folded
pub mod FoldWalk
pub mod Known
pub mod Table
pub mod Environment
mod Tests
