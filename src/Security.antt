-- ===== src/Security.antt =====
-- crates/brolga-security: what bounds an operation before it runs and while it runs.
pub mod Limits
pub mod Network
pub mod Cancel
