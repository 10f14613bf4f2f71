-- ===== src/Graph.antt =====
-- crates/brolga-graph: what is done with the records once they are stored.
pub mod Budget
pub mod Dedup
pub mod Decay
pub mod Resolve
pub mod Traverse
pub mod Rank
pub mod Contradiction
pub mod Confidence
