-- ===== src/Splits.antt =====
-- The dataset splits of services/worker-training/src/worker_training/data/splits.py.
pub mod Rows
pub mod WalkForward
pub mod Purged
pub mod Timing
pub mod Grouped
mod Slices
mod Windows
mod Returns
mod Endless
mod Leakage
mod Separate
mod Tested
mod Groups
mod Rearranged
mod Partition
mod Entities
mod Examples
