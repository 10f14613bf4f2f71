-- ===== src/Graph/Traverse/Truncation.antt =====
-- crates/brolga-graph/src/traverse.rs, `Truncation`: which budgets stopped a traversal.
use brolga.Prelude.{ℕ, String, ◌≢◌, List, [], ◌∷◌, ltb, ◌==◌, if◌then◌else◌, arith}

pub data Truncation : Type 0 where
  depth nodes edges fan_out cancelled : Truncation

unfoldable pub as_str : Truncation → String
as_str depth = "depth"
as_str nodes = "nodes"
as_str edges = "edges"
as_str fan_out = "fan_out"
as_str cancelled = "cancelled"

-- The derived order, as that of a number.
abbrev pub truncation_rank : Truncation → ℕ
truncation_rank depth = 0
truncation_rank nodes = 1
truncation_rank edges = 2
truncation_rank fan_out = 3
truncation_rank cancelled = 4

-- Of a `BTreeSet` of them as its elements in order.
unfoldable pub truncation_insert : Truncation → List Truncation → List Truncation
truncation_insert t [] = t ∷ []
truncation_insert t (u ∷ s) =
    let rest = truncation_insert t s in
    if truncation_rank t == truncation_rank u
    then u ∷ s
    else if ltb (truncation_rank t) (truncation_rank u)
    then t ∷ u ∷ s
    else u ∷ rest

-- A set that something was put into is not empty.
pub truncation_insert-nonempty : (t : Truncation) (s : List Truncation) → truncation_insert t s ≢ []
unfolding truncation_insert
truncation_insert-nonempty t [] q = cc
truncation_insert-nonempty t (u ∷ s) q = ground (arith)
