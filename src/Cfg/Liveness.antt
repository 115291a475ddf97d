-- ===== src/Cfg/Liveness.antt =====
-- `vnt_cfg_compute_liveness` of src/compiler/cfg.c: the backward loop. `Paths` says
-- what liveness is along the paths of the graph, and `Exact` that the loop ends with it.
pub mod Loop
pub mod Paths
pub mod Rounds
pub mod Exact
