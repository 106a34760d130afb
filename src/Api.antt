-- ===== src/Api.antt =====
-- src/asset_store_core/api: the HTTP process, as handlers over the state of all its parts. The web
-- framework hands a handler its arguments and turns what it raises into a response.
pub mod State
pub mod Identity
pub mod Schemas
pub mod Assets
pub mod Legacy
pub mod Mint
pub mod Objects
pub mod Filters
pub mod Console
pub mod Browse
pub mod Bulk
pub mod Requests
pub mod Refusals
pub mod Serving
pub mod Process
pub mod Problems
