-- ===== src/Graph/Traverse/Sound/Walking.antt =====
-- The walk of crates/brolga-graph/src/traverse.rs keeps its state right.
use mathlib.Core.List.{Memᴰ}
use Prim.Native.Nat.{min}
use brolga.Prelude.{
  u32_max, ℕ, zero, suc, ◌+◌, ◌≤◌, ◌<◌, ◌≡◌, refl, sym, ap, inl, inr, ltb, Option, some, List, [],
  ◌∷◌, length, take, arith, Bool-cases, Option-cases, subst, Memᴰ-cons,
}
use brolga.Prelude.Results.{Result-cases}
use brolga.Security.Cancel.{Cancelled}
use brolga.Graph.Traverse.{probe_page, fan_out}
use brolga.Graph.Traverse.Truncation.{Truncation}
use brolga.Graph.Traverse.Edges.{NodeRef, StoreRead, TraversalRequest}
use brolga.Graph.Traverse.Grows.{Flow-cases, visit_node-Grows}
use brolga.Graph.Traverse.Walk.{Visit, truncate, expand, visit_node, visit_nodes, walk, begin}
use brolga.Graph.Traverse.Sound.{Leads, here, Sound, Ends, Sound-same, Final}
use brolga.Graph.Traverse.Sound.Reaching.{mem-take, visit_edges-Sound}

module _ {E : Type 0} (store : StoreRead E) (r : TraversalRequest) where
  module _ (wide : r.limits.max_depth ≤ u32_max) (d : ℕ) (deep : d < r.limits.max_depth) where
    module _ (reason : ℕ → Option Cancelled) where
      visit_node-Sound :
          (v : Visit) (n : NodeRef)
          → Memᴰ (n, d) v.visited
          → Sound store r (suc d) v
          → Ends store r (Sound store r (suc d)) (visit_node store reason r d v n)
      unfolding visit_node expand
      visit_node-Sound v n i s =
          let x = record v { checks = suc v.checks } in
          elim (Option-cases (reason v.checks)) [
            | inr (why, q) ↦
                rw (q, visit_node)
                  (Sound-same store r (suc d) v
                    (truncate Truncation.cancelled (record x { cancellation = some why })) refl refl
                    refl s)
            | inl q ↦ elim (Result-cases (store.edges_at n (probe_page r.limits))) [
              | inr (y, q') ↦ rw (q, q', visit_node) tt
              | inl (rows, q') ↦ elim (Bool-cases (ltb (fan_out r.limits) (length rows))) [
                | inl wide' ↦
                    let y = truncate Truncation.fan_out x in
                    rw (q, q', wide', visit_node, expand)
                      (visit_edges-Sound store r wide d deep y n rows (take (fan_out r.limits) rows)
                        i q' (λ e. mem-take e (fan_out r.limits) rows)
                        (Sound-same store r (suc d) v y refl refl refl s))
                | inr narrow ↦
                    rw (q, q', narrow, visit_node, expand)
                      (visit_edges-Sound store r wide d deep x n rows rows i q' (λ e k. k)
                        (Sound-same store r (suc d) v x refl refl refl s))
              ]
            ]
          ]

      visit_nodes-Sound :
          (v : Visit) (frontier : List NodeRef)
          → ((n : NodeRef) → Memᴰ n frontier → Memᴰ (n, d) v.visited)
          → Sound store r (suc d) v
          → Ends store r (Sound store r (suc d)) (visit_nodes store reason r d v frontier)
      unfolding visit_nodes
      visit_nodes-Sound v [] i s = s
      visit_nodes-Sound v (n ∷ frontier) i s =
          let one = visit_node-Sound v n (i n (Memᴰ.head refl)) s in
          elim (Flow-cases (visit_node store reason r d v n)) [
            | inl (w, q) ↦
                let g = (visit_node-Grows store reason r d v n w q).0 in
                rw (q, visit_nodes)
                  (visit_nodes-Sound w frontier (λ m k. g.keeps (m, d) (i m (Memᴰ.tail k)))
                    (subst (Ends store r (Sound store r (suc d))) q one))
            | inr (inl (w, q)) ↦
                rw (q, visit_nodes) (subst (Ends store r (Sound store r (suc d))) q one)
            | inr (inr (x, q)) ↦ rw (q, visit_nodes) tt
          ]

  module _ (reason : ℕ → Option Cancelled) (wide : r.limits.max_depth ≤ u32_max) where
    walk-Sound :
        (hops d : ℕ) (v : Visit) (frontier : List NodeRef)
        → d + hops ≡ r.limits.max_depth
        → Sound store r d (record v { next = frontier })
        → Ends store r (Final store r) (walk store reason r hops d v frontier)
    unfolding walk
    walk-Sound zero d v frontier e s = (d, s)
    walk-Sound (suc hops) d v [] e s = (d, s)
    walk-Sound (suc hops) d v (n ∷ frontier) e s =
        let x = record v { next = [] } in
        let deep : d < r.limits.max_depth = omega arith in
        let fresh : Sound store r (suc d) x = record {
          paths = s.paths;
          queued = λ m i. elim i [ ];
          justified = s.justified;
          nodes = s.nodes;
          edges = s.edges;
        } in
        let level = visit_nodes-Sound wide d deep reason x (n ∷ frontier) s.queued fresh in
        elim (Flow-cases (visit_nodes store reason r d x (n ∷ frontier))) [
          | inl (w, q) ↦
              let next : min u32_max (d + 1) ≡ suc d = omega arith in
              let t =
                walk-Sound hops (suc d) w w.next (omega arith)
                  (subst (Ends store r (Sound store r (suc d))) q level) in
              rw (q, walk)
                (subst (λ k. Ends store r (Final store r) (walk store reason r hops k w w.next))
                  (sym next) t)
          | inr (inl (w, q)) ↦
              rw (q, walk) (suc d, subst (Ends store r (Sound store r (suc d))) q level)
          | inr (inr (y, q)) ↦ rw (q, walk) tt
        ]

    start-Sound :
        0 < r.limits.max_nodes → Sound store r 0 (record (begin r) { next = r.start ∷ [] })
    unfolding begin
    start-Sound h =
        let z : 0 ≤ r.limits.max_depth = omega arith in
        record {
          paths = λ n k i. elim ((Memᴰ-cons (n, k) (r.start, 0) []).0 i) [
            | inl p ↦
                let q : (r.start, 0) ≡ (n, k) = sym p in
                subst (λ x. Leads store r x.1 x.0 × (x.1 ≤ r.limits.max_depth)) q (here, z)
            | inr j ↦ elim j [ ]
          ];
          queued = λ n i. elim ((Memᴰ-cons n r.start []).0 i) [
            | inl p ↦ Memᴰ.head (ap (λ x. (x, 0)) p)
            | inr j ↦ elim j [ ]
          ];
          justified = λ x i. elim i [ ];
          nodes = omega arith;
          edges = omega arith;
        }

    pub all-Sound :
        0 < r.limits.max_nodes
        → Ends store r
            (Final store r)
            (walk store reason r r.limits.max_depth 0 (begin r) (r.start ∷ []))
    all-Sound h =
        walk-Sound r.limits.max_depth 0 (begin r) (r.start ∷ []) (omega arith) (start-Sound h)
