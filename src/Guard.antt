-- ===== src/Guard.antt =====
-- src/asset_store_core/guard.py: the storage guard, which checks a capability and the table of
-- buckets before it calls the registry and the object store.
pub mod Alias
pub mod Access
pub mod Upload
pub mod Visits
pub mod Calls
pub mod Writes
pub mod Failures
pub mod Reads
pub mod Authorized
