-- ===== src/Graph/Contradiction/Symmetric.antt =====
-- The order in which `relate` of crates/brolga-graph/src/contradiction.rs is given two claims.
use brolga.Prelude.{◌≡◌, ◌≢◌, arith}
use brolga.Graph.Contradiction.{ReviewedClaim, ContradictionRules}
use brolga.Graph.Contradiction.Relate.{relate}

-- The decision on two claims with different identifiers is the same in either order.
pub relate_comm :
    (rules : ContradictionRules) (a b : ReviewedClaim)
    → a.id ≢ b.id
    → relate rules a b ≡ relate rules b a
unfolding relate
relate_comm rules a b h = ground (arith, h)
