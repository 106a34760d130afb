-- ===== src/Registry/Accounts.antt =====
-- What the quota counters of src/asset_store_core/registry.py are to count, stated without them:
-- the available assets of a partition and of a bucket, summed over the assets of the registry.
mod Effects
mod Totals
mod Changes
mod Preserved
mod WellFormed
mod Invariant
pub use Effects.*
pub use Totals.*
pub use Changes.*
pub use Preserved.*
pub use WellFormed.*
pub use Invariant.*
