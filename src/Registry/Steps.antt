-- ===== src/Registry/Steps.antt =====
-- What each operation of src/asset_store_core/registry.py does to the assets and the counters of a
-- well-formed registry, on every path through it, a raise included.
pub mod Common
pub mod Retire
pub mod Commit
pub mod Edit
pub mod Cleanup
pub mod Moves
pub mod Prepared
pub mod Reserve
pub mod Aliases
