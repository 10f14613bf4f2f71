-- ===== src/Graph/Traverse/Grows.antt =====
-- The walk of crates/brolga-graph/src/traverse.rs, where it goes on: what it adds to its sets.
use mathlib.Core.List.{Memᴰ}
use Prim.Native.Nat.{min}
use brolga.Prelude.{
  u32_max, ℕ, suc, ◌+◌, ◌≡◌, refl, sym, ap, ◌⊎◌, inl, inr, true, not, ◌&&◌, ltb, leb, Option, some,
  List, [], ◌∷◌, length, take, arith, Bool-cases, Option-cases, subst, Memᴰ-cons, saturating_add,
  All,
}
use brolga.Prelude.Results.{ok, Result-cases}
use brolga.Security.Cancel.{Cancelled}
use brolga.Graph.Traverse.{TraversalLimits, probe_page, fan_out, permits}
use brolga.Graph.Traverse.Truncation.{Truncation, truncation_insert-nonempty}
use brolga.Graph.Traverse.Edges.{
  NodeRef, Relationship, other_end, StoreRead, TraversalRequest, is_visited, node_insert, has_edge,
  edge_insert,
}
use brolga.Graph.Traverse.Growth.{node_eq_iff, mem-node_insert, mem-is_visited, is_visited-mem}
use brolga.Graph.Traverse.Walk.{
  Visit, Flow, go, stop, failed, truncate, reach, visit_edge, visit_edges, expand, visit_node,
  visit_nodes,
}

pub Flow-cases :
    {E : Type 0} (f : Flow E)
    → ((v : Visit) × (f ≡ go v)) ⊎ (((v : Visit) × (f ≡ stop v)) ⊎ ((x : E) × (f ≡ failed x)))
Flow-cases (go v) = inl (v, refl)
Flow-cases (stop v) = inr (inl (v, refl))
Flow-cases (failed x) = inr (inr (x, refl))

pub go-injective : {E : Type 0} {v w : Visit} → ◌≡◌ {A = Flow E} (go v) (go w) → v ≡ w
go-injective h = cc

-- From one state to a later one.
pub record Grows (v w : Visit) : Type 0 where
  pub keeps : (x : NodeRef × ℕ) → Memᴰ x v.visited → Memᴰ x w.visited
  pub queues : (n : NodeRef) → Memᴰ n v.next → Memᴰ n w.next
  pub fresh : (n : NodeRef) (k : ℕ) → Memᴰ (n, k) w.visited → Memᴰ (n, k) v.visited ⊎ Memᴰ n w.next
  pub untruncated : w.truncated ≡ [] → v.truncated ≡ []

Grows-same :
    (v w : Visit)
    → v.visited ≡ w.visited
    → v.next ≡ w.next
    → (w.truncated ≡ [] → v.truncated ≡ [])
    → Grows v w
Grows-same v w a b c = record {
  keeps = λ x. subst (λ s. Memᴰ x s) a;
  queues = λ n. subst (λ s. Memᴰ n s) b;
  fresh = λ n k i. inl (subst (λ s. Memᴰ (n, k) s) (sym a) i);
  untruncated = c;
}

pub Grows-trans : (u v w : Visit) → Grows u v → Grows v w → Grows u w
Grows-trans u v w f g = record {
  keeps = λ x i. g.keeps x (f.keeps x i);
  queues = λ n i. g.queues n (f.queues n i);
  fresh = λ n k i. elim (g.fresh n k i) [
    | inl j ↦ elim (f.fresh n k j) [ inl l ↦ inl l | inr l ↦ inr (g.queues n l) ]
    | inr j ↦ inr j
  ];
  untruncated = λ e. f.untruncated (g.untruncated e);
}

pub visited_later :
    (v w : Visit) (n : NodeRef)
    → Grows v w
    → is_visited n v.visited ≡ true
    → is_visited n w.visited ≡ true
visited_later v w n g h =
    let (k, i) = is_visited-mem n v.visited h in mem-is_visited n k w.visited (g.keeps (n, k) i)

-- Where an edge leads, if the request may see it, has been visited.
abbrev pub Followed : TraversalRequest → NodeRef → Visit → Relationship → Type 0
Followed r n w e =
    (m : NodeRef)
    → permits r.policy e.markings ≡ true
    → other_end e n r.direction ≡ some m
    → is_visited m w.visited ≡ true

Followed-later :
    (r : TraversalRequest) (n : NodeRef) (v w : Visit) (e : Relationship)
    → Grows v w
    → Followed r n v e
    → Followed r n w e
Followed-later r n v w e g f m p o = visited_later v w m g (f m p o)

All-later :
    (r : TraversalRequest) (n : NodeRef) (v w : Visit) (rows : List Relationship)
    → Grows v w
    → All (Followed r n v) rows
    → All (Followed r n w) rows
All-later r n v w [] g h = tt
All-later r n v w (e ∷ rows) g (f, h) = (Followed-later r n v w e g f, All-later r n v w rows g h)

module _ {E : Type 0} where
  reach-Grows :
      (l : TraversalLimits) (d : ℕ) (v : Visit) (e : Relationship) (m : NodeRef) (w : Visit)
      → reach {E = E} l d v e m ≡ go w
      → Grows v w × (is_visited m w.visited ≡ true)
  unfolding reach
  reach-Grows l d v e m w h =
      elim (Bool-cases (not (has_edge e.id v.collected) && leb l.max_edges (length v.collected))) [
        | inl q ↦ absurd (ground arith)
        | inr q ↦ elim (Bool-cases (is_visited m v.visited)) [
          | inl q' ↦
              let x = record v { collected = edge_insert e v.collected } in
              let p : x ≡ w = go-injective {E = E} (rw (reach, q, q') at h) in
              subst (λ y. Grows v y × (is_visited m y.visited ≡ true)) p
                (Grows-same v x refl refl (λ t. t), q')
          | inr q' ↦ elim (Bool-cases (leb l.max_nodes (length v.visited))) [
            | inl q2 ↦ absurd (ground arith)
            | inr q2 ↦
                let x = record v {
                  visited = (m, min u32_max (d + 1)) ∷ v.visited;
                  next = node_insert m v.next;
                  collected = edge_insert e v.collected;
                } in
                let p : x ≡ w = go-injective {E = E} (rw (reach, q, q', q2) at h) in
                subst (λ y. Grows v y × (is_visited m y.visited ≡ true)) p
                  (
                    record {
                      keeps = λ z i. Memᴰ.tail i;
                      queues = λ n i. (mem-node_insert n m v.next).1 (inr i);
                      fresh = λ n k i.
                          elim ((Memᴰ-cons (n, k) (m, min u32_max (d + 1)) v.visited).0 i) [
                            | inl o ↦ inr ((mem-node_insert n m v.next).1 (inl (ap (λ z. z.0) o)))
                            | inr j ↦ inl j
                          ];
                      untruncated = λ t. t;
                    },
                    ground (arith, (node_eq_iff m m).1 refl),
                  )
          ]
        ]
      ]

  pub visit_edge-Grows :
      (r : TraversalRequest) (d : ℕ) (n : NodeRef) (v : Visit) (e : Relationship) (w : Visit)
      → visit_edge {E = E} r d n v e ≡ go w
      → Grows v w × Followed r n w e
  unfolding visit_edge
  visit_edge-Grows r d n v e w h =
      let x = record v { edges_examined = saturating_add v.edges_examined 1 } in
      let vx : Grows v x = Grows-same v x refl refl (λ t. t) in
      elim (Bool-cases (permits r.policy e.markings)) [
        | inr q ↦
            let y = record x { withheld_by_policy = saturating_add v.withheld_by_policy 1 } in
            let p : y ≡ w = go-injective {E = E} (rw (visit_edge, q) at h) in
            (subst (λ z. Grows v z) p (Grows-same v y refl refl (λ t. t)), λ m q' o. ground arith)
        | inl q ↦ elim (Option-cases (other_end e n r.direction)) [
          | inl o ↦
              let p : x ≡ w = go-injective {E = E} (rw (visit_edge, q, o) at h) in
              (subst (λ z. Grows v z) p vx, λ m q' o'. ground arith)
          | inr (m, o) ↦
              let (g, f) = reach-Grows r.limits d x e m w (rw (visit_edge, q, o) at h) in
              (
                Grows-trans v x w vx g,
                λ m' q' o'.
                    let p : m ≡ m' = ground (arith, o, o') in
                    subst (λ z. is_visited z w.visited ≡ true) p f,
              )
        ]
      ]

  visit_edges-Grows :
      (r : TraversalRequest) (d : ℕ) (n : NodeRef) (v : Visit) (rows : List Relationship)
      (w : Visit)
      → visit_edges {E = E} r d n v rows ≡ go w
      → Grows v w × All (Followed r n w) rows
  unfolding visit_edges
  visit_edges-Grows r d n v [] w h =
      let p : v ≡ w = go-injective {E = E} h in
      (subst (λ z. Grows v z) p (Grows-same v v refl refl (λ t. t)), tt)
  visit_edges-Grows r d n v (e ∷ rows) w h = elim (Flow-cases (visit_edge {E = E} r d n v e)) [
    | inl (x, q) ↦
        let (g, f) = visit_edge-Grows r d n v e x q in
        let (g', fs) = visit_edges-Grows r d n x rows w (rw (visit_edges, q) at h) in
        (Grows-trans v x w g g', (Followed-later r n x w e g' f, fs))
    | inr (inl (x, q)) ↦ absurd (ground arith)
    | inr (inr (x, q)) ↦ absurd (ground arith)
  ]

  -- What a node's edges lead to has been visited, as far as the store gives them.
  abbrev pub Expanded : StoreRead E → TraversalRequest → Visit → NodeRef → Type 0
  Expanded store r w n =
      (rows : List Relationship) × (store.edges_at n (probe_page r.limits) ≡ ok rows)
      × All (Followed r n w) rows

  pub Expanded-later :
      (store : StoreRead E) (r : TraversalRequest) (v w : Visit) (n : NodeRef)
      → Grows v w
      → Expanded store r v n
      → Expanded store r w n
  Expanded-later store r v w n g (rows, e, h) = (rows, e, All-later r n v w rows g h)

  module _ (store : StoreRead E) (reason : ℕ → Option Cancelled) (r : TraversalRequest) where
    pub visit_node-Grows :
        (d : ℕ) (v : Visit) (n : NodeRef) (w : Visit)
        → visit_node store reason r d v n ≡ go w
        → Grows v w × (w.truncated ≡ [] → Expanded store r w n)
    unfolding visit_node expand
    visit_node-Grows d v n w h =
        let x = record v { checks = suc v.checks } in
        let vx : Grows v x = Grows-same v x refl refl (λ t. t) in
        elim (Option-cases (reason v.checks)) [
          | inr (why, q) ↦ absurd (ground arith)
          | inl q ↦ elim (Result-cases (store.edges_at n (probe_page r.limits))) [
            | inr (y, q') ↦ absurd (ground arith)
            | inl (rows, q') ↦ elim (Bool-cases (ltb (fan_out r.limits) (length rows))) [
              | inl wide ↦
                  let y = truncate Truncation.fan_out x in
                  let (g, _) =
                    visit_edges-Grows r d n y (take (fan_out r.limits) rows) w
                      (rw (visit_node, q, q', expand, wide) at h) in
                  let vy : Grows v y =
                    Grows-same v y refl refl
                      (λ t. absurd (truncation_insert-nonempty Truncation.fan_out v.truncated t)) in
                  (
                    Grows-trans v y w vy g,
                    λ t. absurd (
                        truncation_insert-nonempty Truncation.fan_out v.truncated
                          (g.untruncated t)),
                  )
              | inr narrow ↦
                  let (g, f) =
                    visit_edges-Grows r d n x rows w
                      (rw (visit_node, q, q', expand, narrow) at h) in
                  (Grows-trans v x w vx g, λ t. (rows, q', f))
            ]
          ]
        ]

    pub visit_nodes-Grows :
        (d : ℕ) (v : Visit) (frontier : List NodeRef) (w : Visit)
        → visit_nodes store reason r d v frontier ≡ go w
        → Grows v w × (w.truncated ≡ [] → All (Expanded store r w) frontier)
    unfolding visit_nodes
    visit_nodes-Grows d v [] w h =
        let p : v ≡ w = go-injective {E = E} h in
        (subst (λ z. Grows v z) p (Grows-same v v refl refl (λ t. t)), λ t. tt)
    visit_nodes-Grows d v (n ∷ frontier) w h = elim (Flow-cases (visit_node store reason r d v n)) [
      | inl (x, q) ↦
          let (g, f) = visit_node-Grows d v n x q in
          let (g', fs) = visit_nodes-Grows d x frontier w (rw (visit_nodes, q) at h) in
          (
            Grows-trans v x w g g',
            λ t. (Expanded-later store r x w n g' (f (g'.untruncated t)), fs t),
          )
      | inr (inl (x, q)) ↦ absurd (ground arith)
      | inr (inr (x, q)) ↦ absurd (ground arith)
    ]
