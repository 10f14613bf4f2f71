-- ===== src/Tests.antt =====
-- The theorems at concrete inputs, and runs of the definitions.
pub mod Limits
pub mod Network
pub mod Resolve
pub mod Resolver
pub mod Traverse
pub mod Connectors
pub mod Query
pub mod Ageing
pub mod Marking
pub mod Cancel
pub mod Budget
pub mod Dedup
pub mod Decay
pub mod OpenCti
pub mod Rank
pub mod Contradiction
pub mod Confidence
