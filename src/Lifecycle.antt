-- ===== src/Lifecycle.antt =====
-- src/asset_store_core/lifecycle.py: the maintenance worker. `main`, the log and the metrics but for
-- the report are not modelled.
pub mod Policy
pub mod Plan
pub mod Sweep
pub mod Justified
pub mod Effects
pub mod Reports
pub mod Fence
pub mod Reclaim
