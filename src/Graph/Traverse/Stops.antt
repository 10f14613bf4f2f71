-- ===== src/Graph/Traverse/Stops.antt =====
-- A walk of crates/brolga-graph/src/traverse.rs that is broken off says so.
use Prim.Native.Nat.{min}
use brolga.Prelude.{
  u32_max, ◌+◌, ℕ, zero, suc, ◌≢◌, inl, inr, not, ◌&&◌, ltb, leb, Option, List, [], ◌∷◌, length,
  take, Bool-cases, Option-cases, saturating_add,
}
use brolga.Prelude.Results.{Result-cases}
use brolga.Security.Cancel.{Cancelled}
use brolga.Graph.Traverse.{TraversalLimits, probe_page, fan_out, permits}
use brolga.Graph.Traverse.Truncation.{Truncation, truncation_insert-nonempty}
use brolga.Graph.Traverse.Edges.{
  NodeRef, Relationship, other_end, StoreRead, TraversalRequest, is_visited, has_edge,
}
use brolga.Graph.Traverse.Walk.{
  Visit, Flow, go, stop, failed, truncate, reach, visit_edge, visit_edges, expand, visit_node,
  visit_nodes, walk,
}

module _ (E : Type 0) where
  -- A flow that stops notes a truncation.
  abbrev pub Notes : Flow E → Type 0
  Notes (go v) = Unit
  Notes (stop v) = v.truncated ≢ []
  Notes (failed x) = Unit

  reach-Notes :
      (l : TraversalLimits) (d : ℕ) (v : Visit) (e : Relationship) (m : NodeRef)
      → Notes (reach {E = E} l d v e m)
  unfolding reach
  reach-Notes l d v e m =
      elim (Bool-cases (not (has_edge e.id v.collected) && leb l.max_edges (length v.collected))) [
        | inl q ↦ rw q (truncation_insert-nonempty Truncation.edges v.truncated)
        | inr q ↦ elim (Bool-cases (is_visited m v.visited)) [
          | inl q' ↦ rw (q, q') tt
          | inr q' ↦ elim (Bool-cases (leb l.max_nodes (length v.visited))) [
            | inl q2 ↦ rw (q, q', q2) (truncation_insert-nonempty Truncation.nodes v.truncated)
            | inr q2 ↦ rw (q, q', q2) tt
          ]
        ]
      ]

  visit_edge-Notes :
      (r : TraversalRequest) (d : ℕ) (n : NodeRef) (v : Visit) (e : Relationship)
      → Notes (visit_edge {E = E} r d n v e)
  unfolding visit_edge
  visit_edge-Notes r d n v e = elim (Bool-cases (permits r.policy e.markings)) [
    | inl q ↦ elim (Option-cases (other_end e n r.direction)) [
      | inl o ↦ rw (visit_edge, q, o) tt
      | inr (m, o) ↦
          rw (visit_edge, q, o)
            (reach-Notes r.limits d
              (record v { edges_examined = saturating_add v.edges_examined 1 }) e m)
    ]
    | inr q ↦ rw (visit_edge, q) tt
  ]

  -- A chain of two flows notes what its parts note.
  Notes-then :
      (f : Flow E) (next : Visit → Flow E)
      → Notes f
      → ((v : Visit) → Notes (next v))
      → Notes (elim f as (λ x. Flow E) [ go v ↦ next v | stop v ↦ stop v | failed x ↦ failed x ])
  Notes-then (go v) next h k = k v
  Notes-then (stop v) next h k = h
  Notes-then (failed x) next h k = tt

  visit_edges-Notes :
      (r : TraversalRequest) (d : ℕ) (n : NodeRef) (v : Visit) (rows : List Relationship)
      → Notes (visit_edges {E = E} r d n v rows)
  unfolding visit_edges
  visit_edges-Notes r d n v [] = tt
  visit_edges-Notes r d n v (e ∷ rows) =
      Notes-then (visit_edge r d n v e) (λ w. visit_edges r d n w rows) (visit_edge-Notes r d n v e)
        (λ w. visit_edges-Notes r d n w rows)

  module _ (store : StoreRead E) (reason : ℕ → Option Cancelled) (r : TraversalRequest) where
    visit_node-Notes : (d : ℕ) (v : Visit) (n : NodeRef) → Notes (visit_node store reason r d v n)
    unfolding visit_node expand
    visit_node-Notes d v n = elim (Option-cases (reason v.checks)) [
      | inr (why, q) ↦
          rw (q, visit_node) (truncation_insert-nonempty Truncation.cancelled v.truncated)
      | inl q ↦ elim (Result-cases (store.edges_at n (probe_page r.limits))) [
        | inr (y, q') ↦ rw (q, q', visit_node) tt
        | inl (rows, q') ↦
            let x = record v { checks = suc v.checks } in
            elim (Bool-cases (ltb (fan_out r.limits) (length rows))) [
              | inl wide ↦
                  rw (q, q', wide, visit_node, expand)
                    (visit_edges-Notes r d n (truncate Truncation.fan_out x)
                      (take (fan_out r.limits) rows))
              | inr narrow ↦ rw (q, q', narrow, visit_node, expand) (visit_edges-Notes r d n x rows)
            ]
      ]
    ]

    visit_nodes-Notes :
        (d : ℕ) (v : Visit) (frontier : List NodeRef)
        → Notes (visit_nodes store reason r d v frontier)
    unfolding visit_nodes
    visit_nodes-Notes d v [] = tt
    visit_nodes-Notes d v (n ∷ frontier) =
        Notes-then (visit_node store reason r d v n) (λ w. visit_nodes store reason r d w frontier)
          (visit_node-Notes d v n) (λ w. visit_nodes-Notes d w frontier)

    pub walk-Notes :
        (hops d : ℕ) (v : Visit) (frontier : List NodeRef)
        → Notes (walk store reason r hops d v frontier)
    unfolding walk
    walk-Notes zero d v frontier = tt
    walk-Notes (suc hops) d v [] = tt
    walk-Notes (suc hops) d v (n ∷ frontier) =
        let x = record v { next = [] } in
        Notes-then (visit_nodes store reason r d x (n ∷ frontier))
          (λ w. walk store reason r hops (min u32_max (d + 1)) w w.next)
          (visit_nodes-Notes d x (n ∷ frontier))
          (λ w. walk-Notes hops (min u32_max (d + 1)) w w.next)
