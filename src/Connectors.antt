-- ===== src/Connectors.antt =====
-- crates/brolga-connectors: how a feed is read into the store.
pub mod Cursor
pub mod Errors
pub mod Sync
pub mod Taxii
pub mod OpenCti
