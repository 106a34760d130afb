-- ===== src/Capabilities.antt =====
-- src/asset_store_core/capabilities.py: bearer capabilities, the ledger of the single-use ones and
-- the bounded store of the live ones.
pub mod Scope
pub mod Ledger
pub mod Store
