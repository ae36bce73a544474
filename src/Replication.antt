-- ===== src/Replication.antt =====
-- Replication planning: replication/logic.
pub mod Version
pub mod Diff
pub mod Planner
pub mod StepQueue
pub mod Driver
