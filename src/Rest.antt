-- ===== src/Rest.antt =====
-- The REST API of ers/ers_rest_api: its messages, the services behind its routes, and its status codes.
pub mod Messages
pub mod Resolve
pub mod Lookup
pub mod Handlers
pub mod Status
pub mod Batches
pub mod Lookups
pub mod Found
