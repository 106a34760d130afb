-- ===== src/Registry/Behaviour.antt =====
-- What single operations of src/asset_store_core/registry.py return and raise.
pub mod Resolve
pub mod Commit
pub mod Cleanup
