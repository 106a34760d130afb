-- ===== src/Fetcher.antt =====
-- src/fetcher_service: how a URL is brought into the asset store. The HTTP clients and the HTTP
-- interface are not modelled.
pub mod Urls
pub mod Rules
pub mod Ensure
pub mod Reuse
