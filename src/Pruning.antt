-- ===== src/Pruning.antt =====
-- Which snapshots to destroy: pruning/ and pruning/retentiongrid/.
pub mod Grid
pub mod Rules
pub mod Config
