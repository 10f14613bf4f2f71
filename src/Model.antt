-- ===== src/Model.antt =====
-- crates/brolga-model: the records that the other crates share.
pub mod Marking
pub mod Vocabulary
pub mod Entity
pub mod Status
pub mod Temporal
pub mod Bounded
pub mod Confidence
