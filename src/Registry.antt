-- ===== src/Registry.antt =====
-- src/asset_store_core/registry.py, `class InMemoryAssetRegistry`: the state, the operations by
-- the part of the state that they change, and what is proved of them.
pub mod State
pub mod Quota
pub mod Counters
pub mod Names
pub mod Lifecycle
pub mod Aliases
pub mod Queries
pub mod Accounts
pub mod Steps
pub mod Calls
pub mod Behaviour
