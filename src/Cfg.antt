-- ===== src/Cfg.antt =====
-- The control-flow graph: include/vnt/cfg.h and src/compiler/cfg.c.
pub mod Bits
pub mod Graph
pub mod Flow
pub mod Cells
pub mod Liveness
pub mod Assigned
pub mod Variables
pub mod Collected
pub mod Effects
pub mod Reads
pub mod Validate
pub mod Analysis
pub mod EffectsEnd
pub mod Access
pub mod Operands
pub mod EffectsExact
pub mod ByName
pub mod Sound
pub mod Build
pub mod Prune
pub mod Ends
pub mod Placed
pub mod Built
pub mod Statements
pub mod Reach
pub mod Pruned
pub mod CleanUp
pub mod Simplify
pub mod Whole
mod Tests
mod BuildTests
pub mod Returned
