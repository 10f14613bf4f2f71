-- ===== src/Graph/Traverse/Sound/Reaching.antt =====
-- Following edges in the walk of crates/brolga-graph/src/traverse.rs keeps its state right.
use mathlib.Core.List.{Memᴰ}
use Prim.Native.Nat.{min}
use brolga.Prelude.{
  u32_max, ℕ, zero, suc, ◌+◌, ◌≤◌, ◌<◌, ◌≡◌, refl, sym, ap, ◌∙◌, ◌⊎◌, inl, inr, true, not, ◌&&◌,
  leb, some, List, [], ◌∷◌, length, take, arith, Bool-cases, Option-cases, subst, Memᴰ-cons,
  saturating_add,
}
use brolga.Prelude.Results.{ok}
use brolga.Graph.Traverse.{probe_page, permits}
use brolga.Graph.Traverse.Truncation.{Truncation}
use brolga.Graph.Traverse.Edges.{
  NodeRef, Relationship, other_end, StoreRead, TraversalRequest, is_visited, node_insert, has_edge,
  edge_insert,
}
use brolga.Graph.Traverse.Growth.{mem-node_insert, mem-edge_insert, length-edge_insert}
use brolga.Graph.Traverse.Grows.{Flow-cases, visit_edge-Grows}
use brolga.Graph.Traverse.Walk.{Visit, truncate, reach, visit_edge, visit_edges}
use brolga.Graph.Traverse.Sound.{Seen, Leads, step, Justified, Sound, Ends, Sound-same}

pub mem-take :
    (e : Relationship) (n : ℕ) (rows : List Relationship) → Memᴰ e (take n rows) → Memᴰ e rows
mem-take e zero rows i = elim i [ ]
mem-take e (suc n) [] i = elim i [ ]
mem-take e (suc n) (f ∷ rows) (Memᴰ.head p) = Memᴰ.head p
mem-take e (suc n) (f ∷ rows) (Memᴰ.tail i) = Memᴰ.tail (mem-take e n rows i)

module _ {E : Type 0} (store : StoreRead E) (r : TraversalRequest) where
  module _ (wide : r.limits.max_depth ≤ u32_max) (d : ℕ) (deep : d < r.limits.max_depth) where
    collect-Sound :
        (v : Visit) (e : Relationship)
        → (has_edge e.id v.collected ≡ true) ⊎ (length v.collected < r.limits.max_edges)
        → Justified store r e
        → Sound store r (suc d) v
        → Sound store r (suc d) (record v { collected = edge_insert e v.collected })
    collect-Sound v e room j s = record {
      paths = s.paths;
      queued = s.queued;
      justified = λ x i. elim (mem-edge_insert x e v.collected i) [
        | inl p ↦ subst (Justified store r) (sym p) j
        | inr i' ↦ s.justified x i'
      ];
      nodes = s.nodes;
      edges = ground (arith, length-edge_insert e v.collected, s.edges, room);
    }

    abbrev enter : NodeRef → Visit → Visit
    enter m v = record v {
      visited = (m, min u32_max (d + 1)) ∷ v.visited;
      next = node_insert m v.next;
    }

    enter-Sound :
        (v : Visit) (m : NodeRef)
        → Leads store r (suc d) m
        → length v.visited < r.limits.max_nodes
        → Sound store r (suc d) v
        → Sound store r (suc d) (enter m v)
    enter-Sound v m path room s =
        let e : min u32_max (d + 1) ≡ suc d = omega arith in
        record {
          paths = λ n k i. elim ((Memᴰ-cons (n, k) (m, min u32_max (d + 1)) v.visited).0 i) [
            | inl p ↦
                let q : (m, suc d) ≡ (n, k) = ap (λ x. (m, x)) (sym e) ∙ sym p in
                subst (λ x. Leads store r x.1 x.0 × (x.1 ≤ r.limits.max_depth)) q
                  (path, omega arith)
            | inr i' ↦ s.paths n k i'
          ];
          queued = λ n i. elim ((mem-node_insert n m v.next).0 i) [
            | inl p ↦ Memᴰ.head (ap (λ x. (x, suc d)) p ∙ ap (λ x. (m, x)) (sym e))
            | inr i' ↦ Memᴰ.tail (s.queued n i')
          ];
          justified = s.justified;
          nodes = omega arith;
          edges = s.edges;
        }

    reach-Sound :
        (v : Visit) (e : Relationship) (n m : NodeRef)
        → Memᴰ (n, d) v.visited
        → Seen store r n e
        → other_end e n r.direction ≡ some m
        → Sound store r (suc d) v
        → Ends store r (Sound store r (suc d)) (reach {E = E} r.limits d v e m)
    unfolding reach
    reach-Sound v e n m i seen o s =
        elim (Bool-cases
          (not (has_edge e.id v.collected) && leb r.limits.max_edges (length v.collected))) [
            | inl q ↦
                rw q (Sound-same store r (suc d) v (truncate Truncation.edges v) refl refl refl s)
            | inr q ↦
                let (path, _) = s.paths n d i in
                let room : (has_edge e.id v.collected ≡ true)
                    ⊎ (length v.collected < r.limits.max_edges) =
                  ground arith in
                elim (Bool-cases (is_visited m v.visited)) [
                  | inl q' ↦ rw (q, q') (collect-Sound v e room (d, n, path, seen) s)
                  | inr q' ↦ elim (Bool-cases (leb r.limits.max_nodes (length v.visited))) [
                    | inl q2 ↦
                        rw (q, q', q2)
                          (Sound-same store r (suc d) v (truncate Truncation.nodes v) refl refl refl
                            s)
                    | inr q2 ↦
                        rw (q, q', q2)
                          (collect-Sound (enter m v) e room (d, n, path, seen)
                            (enter-Sound v m (step e path seen o) (ground arith) s))
                  ]
                ]
          ]

    visit_edge-Sound :
        (v : Visit) (e : Relationship) (n : NodeRef) (rows : List Relationship)
        → Memᴰ (n, d) v.visited
        → store.edges_at n (probe_page r.limits) ≡ ok rows
        → Memᴰ e rows
        → Sound store r (suc d) v
        → Ends store r (Sound store r (suc d)) (visit_edge {E = E} r d n v e)
    unfolding visit_edge
    visit_edge-Sound v e n rows i h j s =
        let w = record v { edges_examined = saturating_add v.edges_examined 1 } in
        elim (Bool-cases (permits r.policy e.markings)) [
          | inl q ↦ elim (Option-cases (other_end e n r.direction)) [
            | inl o ↦ rw (visit_edge, q, o) (Sound-same store r (suc d) v w refl refl refl s)
            | inr (m, o) ↦
                rw (visit_edge, q, o)
                  (reach-Sound w e n m i (rows, h, j, q) o
                    (Sound-same store r (suc d) v w refl refl refl s))
          ]
          | inr q ↦ rw q (
              Sound-same store r (suc d) v
                (record w { withheld_by_policy = saturating_add v.withheld_by_policy 1 }) refl refl
                refl s)
        ]

    pub visit_edges-Sound :
        (v : Visit) (n : NodeRef) (all rows : List Relationship)
        → Memᴰ (n, d) v.visited
        → store.edges_at n (probe_page r.limits) ≡ ok all
        → ((e : Relationship) → Memᴰ e rows → Memᴰ e all)
        → Sound store r (suc d) v
        → Ends store r (Sound store r (suc d)) (visit_edges {E = E} r d n v rows)
    unfolding visit_edges
    visit_edges-Sound v n all [] i h j s = s
    visit_edges-Sound v n all (e ∷ rows) i h j s =
        let one = visit_edge-Sound v e n all i h (j e (Memᴰ.head refl)) s in
        elim (Flow-cases (visit_edge {E = E} r d n v e)) [
          | inl (w, q) ↦
              let g = (visit_edge-Grows {E = E} r d n v e w q).0 in
              rw (q, visit_edges)
                (visit_edges-Sound w n all rows (g.keeps (n, d) i) h (λ x k. j x (Memᴰ.tail k))
                  (subst (Ends store r (Sound store r (suc d))) q one))
          | inr (inl (w, q)) ↦
              rw (q, visit_edges) (subst (Ends store r (Sound store r (suc d))) q one)
          | inr (inr (x, q)) ↦ rw (q, visit_edges) tt
        ]
