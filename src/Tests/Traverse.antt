-- ===== src/Tests/Traverse.antt =====
-- Runs of crates/brolga-graph/src/traverse.rs.
use mathlib.Core.List.{Memᴰ}
use brolga.Prelude.{ℕ, zero, suc, ◌≡◌, refl, ◌↔◌, true, Option, none, some, List, [], ◌∷◌, arith}
use brolga.Prelude.Results.{ok}
use brolga.Model.Marking.{TlpLevel, tlp, most_restrictive_tlp}
use brolga.Security.Cancel.{Cancelled}
use brolga.Graph.Traverse.{fan_out, probe_page, permits}
use brolga.Graph.Traverse.Truncation.{truncation_insert}
use brolga.Graph.Traverse.Edges.{
  NodeRef, entity, observable, Relationship, StoreRead, TraversalRequest, either, other_end,
  includes_source, includes_target, node_eq, node_leb, edge_insert, edge_replace, edge_place,
  has_edge, node_insert,
}
use brolga.Graph.Traverse.Walk.{
  run, walk, visit_nodes, visit_node, visit_edge, visit_edges, reach, expand, begin, sort_reached,
  reached_insert, reached_leb, Traversal, is_complete,
}
use brolga.Graph.Traverse.Sound.{Leads, here, step}
use brolga.Graph.Traverse.Returned.{Right}
use brolga.Graph.Traverse.Complete.{run-complete}
use brolga.Graph.Traverse.Plan.{TraversalPlan, prepare, traverse, check_budgets, check_start}
use brolga.Graph.Traverse.Plan.Admitted.{Admitted, prepare_iff, traverse-Right}

-- 0 → 1 → 2 → 0, and an edge of 1 to the observable 9 that is marked red.
abbrev first_edge : Relationship
first_edge = record { id = 20; source = entity 0; target = entity 1; markings = [] }

abbrev second_edge : Relationship
second_edge = record { id = 10; source = entity 1; target = entity 2; markings = [] }

abbrev third_edge : Relationship
third_edge = record { id = 30; source = entity 2; target = entity 0; markings = [] }

abbrev red_edge : Relationship
red_edge = record {
  id = 40;
  source = entity 1;
  target = observable 9;
  markings = tlp TlpLevel.red ∷ [];
}

abbrev rows_of : ℕ → List Relationship
rows_of zero = first_edge ∷ third_edge ∷ []
rows_of (suc zero) = second_edge ∷ first_edge ∷ red_edge ∷ []
rows_of (suc (suc n)) = second_edge ∷ third_edge ∷ []

abbrev edges_of : NodeRef → List Relationship
edges_of (entity n) = rows_of n
edges_of (observable n) = red_edge ∷ []

abbrev triangle : StoreRead ℕ
triangle = record {
  edges_at = λ n page. ok (edges_of n);
  get_entity = λ n. ok (some []);
  degree = ok 2;
}

abbrev never : ℕ → Option Cancelled
never n = none

abbrev request : TraversalRequest
request = record {
  start = entity 0;
  direction = either;
  limits = record { max_depth = 3; max_nodes = 500; max_edges = 2000; max_fan_out = 200 };
  policy = record { permitted_tlp = some TlpLevel.amber };
}

abbrev found : Traversal
found = record {
  start = entity 0;
  nodes = (entity 0, 0) ∷ (entity 1, 1) ∷ (entity 2, 1) ∷ [];
  edges = second_edge ∷ first_edge ∷ third_edge ∷ [];
  truncated = [];
  cancellation = none;
  withheld_by_policy = 1;
  edges_examined = 7;
}

found-run : run triangle never request ≡ ok found
unfolding run walk visit_nodes visit_node visit_edge visit_edges reach expand begin fan_out
    probe_page permits most_restrictive_tlp other_end includes_source includes_target node_eq
    node_leb edge_insert edge_replace edge_place has_edge node_insert sort_reached reached_insert
    reached_leb truncation_insert
found-run = refl

abbrev plan : TraversalPlan
plan = record { request = request; start_degree = 2 }

prepared : prepare triangle request ≡ ok plan
unfolding prepare check_budgets check_start permits most_restrictive_tlp
prepared = refl

found-traverse : traverse triangle never request ≡ ok found
unfolding traverse
found-traverse = rw (traverse, prepared, found-run) refl

prepare_iff_example :
    (prepare triangle request ≡ ok plan) ↔ (Admitted triangle request 2 × (request ≡ request))
prepare_iff_example = prepare_iff triangle request plan

traverse-Right_example :
    Right triangle never request found × ((degree : ℕ) × Admitted triangle request degree)
traverse-Right_example = traverse-Right triangle never request found (omega arith) found-traverse

path : Leads triangle request 2 (entity 2)
unfolding permits most_restrictive_tlp other_end includes_source includes_target node_eq
path =
    step second_edge (step first_edge here (rows_of 0, refl, Memᴰ.head refl, refl) refl)
      (rows_of 1, refl, Memᴰ.head refl, refl) refl

found_complete : is_complete found ≡ true
unfolding is_complete
found_complete = refl

run-complete_example : (d : ℕ) × Memᴰ (entity 2, d) found.nodes
run-complete_example =
    run-complete triangle never request found (entity 2) 2 found-run found_complete path
