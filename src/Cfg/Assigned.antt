-- ===== src/Cfg/Assigned.antt =====
-- `vnt_cfg_check_definite_assignment` of src/compiler/cfg.c: the forward loop. `Paths` says what a
-- missing assignment is along the paths of the graph, and `Exact` that the loop ends with it.
pub mod Loop
pub mod Meet
pub mod Paths
pub mod Rows
pub mod Cells
pub mod Exact
