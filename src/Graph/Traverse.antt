-- ===== src/Graph/Traverse.antt =====
-- crates/brolga-graph/src/traverse.rs: the budgets of a traversal, and what handling restrictions a
-- request is cleared to see.
pub mod Policy
pub mod Truncation
pub mod Edges
pub mod Growth
pub mod Walk
pub mod Grows
pub mod Stops
pub mod Sound
pub mod Returned
pub mod Complete
pub mod Plan
use Prim.Native.Nat.{min, max}
use brolga.Prelude.{ℕ, ◌+◌, ◌-◌, ◌^◌, Bool, true, Option, none, some, leb, ltb, if◌then◌else◌}
use brolga.Model.Marking.{TlpLevel, tlp_rank, MarkingSet, most_restrictive_tlp}

pub record TraversalLimits : Type 0 where
  pub max_depth : ℕ
  pub max_nodes : ℕ
  pub max_edges : ℕ
  pub max_fan_out : ℕ

-- `Page::MAX_LIMIT`, and one less.
abbrev pub max_limit : ℕ
max_limit = 1000

abbrev pub max_fan_out : ℕ
max_fan_out = max_limit - 1

-- `TraversalLimits::new`
unfoldable pub new : ℕ → ℕ → ℕ → ℕ → TraversalLimits
new depth nodes edges width = record {
  max_depth = depth;
  max_nodes = nodes;
  max_edges = edges;
  max_fan_out = if ltb max_fan_out width then max_fan_out else width;
}

unfoldable pub default : TraversalLimits
unfolding new
default = new 3 500 2000 200

-- `Page::first(self.max_fan_out.saturating_add(1))`: a page has at least one row and at most 1000.
unfoldable pub probe_page : TraversalLimits → ℕ
probe_page l =
    let limit = min (2 ^ 32 - 1) (l.max_fan_out + 1) in
    if ltb max_limit limit then max_limit else max 1 limit

unfoldable pub fan_out : TraversalLimits → ℕ
fan_out l = l.max_fan_out

pub record TraversalPolicy : Type 0 where
  pub permitted_tlp : Option TlpLevel

unfoldable pub unrestricted : TraversalPolicy
unrestricted = record { permitted_tlp = none }

unfoldable pub permitting : TlpLevel → TraversalPolicy
permitting level = record { permitted_tlp = some level }

abbrev pub is_cleared : Option TlpLevel → Option TlpLevel → Bool
is_cleared none found = true
is_cleared (some permitted) none = true
is_cleared (some permitted) (some found) = leb (tlp_rank found) (tlp_rank permitted)

-- `TraversalPolicy::permits`
unfoldable pub permits : TraversalPolicy → MarkingSet → Bool
permits policy markings = is_cleared policy.permitted_tlp (most_restrictive_tlp markings)
