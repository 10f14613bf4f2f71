-- ===== src/Graph/Traverse/Walk.antt =====
-- crates/brolga-graph/src/traverse.rs, `TraversalPlan::run`.
-- The store is not written to meanwhile. A reading of the token is a function of how many went before.
-- Of the map `visited` only membership and the sorted result show, so it is the list of its entries,
-- the latest first.
use Prim.Native.Nat.{min}
use brolga.Prelude.{
  u32_max, ℕ, zero, suc, ◌+◌, Bool, true, false, not, ◌&&◌, ◌||◌, Option, none, some, List, [], ◌∷◌,
  ltb, leb, ◌==◌, if◌then◌else◌, length, take, saturating_add,
}
use brolga.Prelude.Results.{Result, ok, err}
use brolga.Security.Cancel.{Cancelled}
use brolga.Graph.Traverse.{TraversalLimits, fan_out, probe_page, permits}
use brolga.Graph.Traverse.Truncation.{Truncation, truncation_insert}
use brolga.Graph.Traverse.Edges.{
  NodeRef, node_leb, Relationship, other_end, StoreRead, TraversalRequest, is_visited, node_insert,
  has_edge, edge_insert,
}

-- The local variables of `run`.
pub record Visit : Type 0 where
  pub visited : List (NodeRef × ℕ)
  pub collected : List Relationship
  pub truncated : List Truncation
  pub cancellation : Option Cancelled
  pub withheld_by_policy : ℕ
  pub edges_examined : ℕ
  pub next : List NodeRef
  pub checks : ℕ

-- How a step of the walk ends: by going on, by `break 'walk`, or by `?`.
pub data Flow (E : Type 0) : Type 0 where
  go : Visit → Flow E
  stop : Visit → Flow E
  failed : E → Flow E

abbrev pub truncate : Truncation → Visit → Visit
truncate t v = record v { truncated = truncation_insert t v.truncated }

unfoldable pub begin : TraversalRequest → Visit
begin r = record {
  visited = (r.start, 0) ∷ [];
  collected = [];
  truncated = [];
  cancellation = none;
  withheld_by_policy = 0;
  edges_examined = 0;
  next = [];
  checks = 0;
}

module _ {E : Type 0} where
  -- The end of the body for one edge: `collected.insert`.
  abbrev pub collect : Relationship → Visit → Flow E
  collect e v = go (record v { collected = edge_insert e v.collected })

  -- The body for one edge that leads to a node.
  unfoldable pub reach : TraversalLimits → ℕ → Visit → Relationship → NodeRef → Flow E
  reach l depth v e other =
      if not (has_edge e.id v.collected) && leb l.max_edges (length v.collected)
      then stop (truncate Truncation.edges v)
      else if is_visited other v.visited
      then collect e v
      else if leb l.max_nodes (length v.visited)
      then stop (truncate Truncation.nodes v)
      else collect e (record v {
        visited = (other, min u32_max (depth + 1)) ∷ v.visited;
        next = node_insert other v.next;
      })

  unfoldable pub visit_edge : TraversalRequest → ℕ → NodeRef → Visit → Relationship → Flow E
  visit_edge r depth node v e =
      let w = record v { edges_examined = saturating_add v.edges_examined 1 } in
      if permits r.policy e.markings
      then elim (other_end e node r.direction) [
        | none ↦ go w
        | some other ↦ reach r.limits depth w e other
      ]
      else go (record w { withheld_by_policy = saturating_add v.withheld_by_policy 1 })

  unfoldable pub visit_edges : TraversalRequest → ℕ → NodeRef → Visit → List Relationship → Flow E
  visit_edges r depth node v [] = go v
  visit_edges r depth node v (e ∷ rows) = elim (visit_edge r depth node v e) [
    | go w ↦ visit_edges r depth node w rows
    | stop w ↦ stop w
    | failed x ↦ failed x
  ]

module _ {E : Type 0} (store : StoreRead E) (reason : ℕ → Option Cancelled)
    (r : TraversalRequest) where
  -- The rows of one node, of which only the budget is expanded.
  unfoldable pub expand : ℕ → NodeRef → Visit → List Relationship → Flow E
  expand depth node v rows =
      if ltb (fan_out r.limits) (length rows)
      then visit_edges r depth node (truncate Truncation.fan_out v) (take (fan_out r.limits) rows)
      else visit_edges r depth node v rows

  -- The body for one node of the frontier.
  unfoldable pub visit_node : ℕ → Visit → NodeRef → Flow E
  visit_node depth v node =
      let w = record v { checks = suc v.checks } in
      elim (reason v.checks) [
        | some why ↦ stop (truncate Truncation.cancelled (record w { cancellation = some why }))
        | none ↦ elim (store.edges_at node (probe_page r.limits)) [
          | ok rows ↦ expand depth node w rows
          | err x ↦ failed x
        ]
      ]

  unfoldable pub visit_nodes : ℕ → Visit → List NodeRef → Flow E
  visit_nodes depth v [] = go v
  visit_nodes depth v (n ∷ frontier) = elim (visit_node depth v n) [
    | go w ↦ visit_nodes depth w frontier
    | stop w ↦ stop w
    | failed x ↦ failed x
  ]

  -- `'walk`, by the hops left, with its frontier: what it ends with, where the frontier is `next`.
  unfoldable pub walk : ℕ → ℕ → Visit → List NodeRef → Flow E
  walk zero depth v frontier = go (record v { next = frontier })
  walk (suc hops) depth v [] = go (record v { next = [] })
  walk (suc hops) depth v (n ∷ frontier) =
      elim (visit_nodes depth (record v { next = [] }) (n ∷ frontier)) [
        | go w ↦ walk hops (min u32_max (depth + 1)) w w.next
        | stop w ↦ stop w
        | failed x ↦ failed x
      ]

-- The derived order of `ReachedNode`.
unfoldable pub reached_leb : NodeRef × ℕ → NodeRef × ℕ → Bool
reached_leb (n, d) (m, c) = ltb d c || (d == c && node_leb n m)

unfoldable pub reached_insert : NodeRef × ℕ → List (NodeRef × ℕ) → List (NodeRef × ℕ)
reached_insert a [] = a ∷ []
reached_insert a (b ∷ s) =
    let rest = reached_insert a s in if reached_leb a b then a ∷ b ∷ s else b ∷ rest

unfoldable pub sort_reached : List (NodeRef × ℕ) → List (NodeRef × ℕ)
sort_reached [] = []
sort_reached (a ∷ s) = reached_insert a (sort_reached s)

pub record Traversal : Type 0 where
  pub start : NodeRef
  pub nodes : List (NodeRef × ℕ)
  pub edges : List Relationship
  pub truncated : List Truncation
  pub cancellation : Option Cancelled
  pub withheld_by_policy : ℕ
  pub edges_examined : ℕ

abbrev pub is_empty {ℓ} : {A : Type ℓ} → List A → Bool
is_empty [] = true
is_empty (x ∷ xs) = false

unfoldable pub is_complete : Traversal → Bool
is_complete t = is_empty t.truncated

abbrev pub traversal_of : NodeRef → Visit → Traversal
traversal_of start v = record {
  start = start;
  nodes = sort_reached v.visited;
  edges = v.collected;
  truncated = v.truncated;
  cancellation = v.cancellation;
  withheld_by_policy = v.withheld_by_policy;
  edges_examined = v.edges_examined;
}

-- A frontier that is left when no `break` ended the walk.
abbrev pub note_depth : Visit → Visit
note_depth v = if is_empty v.next then v else truncate Truncation.depth v

-- What `run` returns once the walk has ended.
abbrev pub returned : {E : Type 0} → Flow E → NodeRef → Result E Traversal
returned (go v) start = ok (traversal_of start (note_depth v))
returned (stop v) start = ok (traversal_of start v)
returned (failed x) start = err x

unfoldable pub run :
    {E : Type 0} → StoreRead E → (ℕ → Option Cancelled) → TraversalRequest → Result E Traversal
run store reason r =
    returned (walk store reason r r.limits.max_depth 0 (begin r) (r.start ∷ [])) r.start
