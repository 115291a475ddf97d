-- ===== src/Ir.antt =====
-- The high-level intermediate representation: include/vnt/ir.h and src/compiler/ir.c.
pub mod Node
pub mod Validate
pub mod Walk
pub mod Order
pub mod Forest
pub mod Optimize
