-- ===== src/Tests.antt =====
-- Runs at concrete inputs, and the theorems at inputs that meet their hypotheses.
mod Replication
mod Pruning
mod Pruner
mod Zfs
mod Filters
mod Endpoint
mod Namecheck
mod Filesystems
mod GridConfig
mod StepQueue
mod Driver
mod Global
mod CircLog
