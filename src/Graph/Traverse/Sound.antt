-- ===== src/Graph/Traverse/Sound.antt =====
-- What a walk of crates/brolga-graph/src/traverse.rs holds in every state.
pub mod Reaching
pub mod Walking
use mathlib.Core.List.{Memᴰ}
use mathlib.Core.List.Memᴰ
use Prim.Native.Nat.{min}
use brolga.Prelude.{
  u32_max, ℕ, zero, suc, ◌+◌, ◌≤◌, ◌<◌, ◌≡◌, refl, sym, ap, ◌∙◌, ◌⊎◌, inl, inr, Bool, true, false,
  not, ◌||◌, ◌&&◌, ltb, leb, Option, some, none, List, [], ◌∷◌, length, take, arith, Bool-cases,
  Option-cases, subst, if◌then◌else◌, Memᴰ-cons, saturating_add,
}
use brolga.Prelude.Results.{Result, ok, err, Result-cases}
use brolga.Security.Cancel.{Cancelled}
use brolga.Graph.Traverse.{probe_page, fan_out, permits}
use brolga.Graph.Traverse.Truncation.{Truncation}
use brolga.Graph.Traverse.Edges.{
  NodeRef, node_eq, Relationship, other_end, StoreRead, TraversalRequest, is_visited, node_insert,
  has_edge, edge_insert,
}
use brolga.Graph.Traverse.Growth.{mem-node_insert, mem-edge_insert, length-edge_insert}
use brolga.Graph.Traverse.Grows.{Flow-cases, visit_edge-Grows, visit_node-Grows}
use brolga.Graph.Traverse.Walk.{
  Visit, Flow, go, stop, failed, truncate, reach, visit_edge, visit_edges, expand, visit_node,
  visit_nodes, walk, begin,
}

module _ {E : Type 0} (store : StoreRead E) (r : TraversalRequest) where
  -- An edge that the store gives for a node and that the request may see.
  abbrev pub Seen : NodeRef → Relationship → Type 0
  Seen n e =
      (rows : List Relationship) × (store.edges_at n (probe_page r.limits) ≡ ok rows)
      × Memᴰ e rows
      × (permits r.policy e.markings ≡ true)

  -- A node that so many such edges lead to from the start.
  pub data Leads : ℕ → NodeRef → Type 0 where
    here : Leads 0 r.start
    step :
        {k : ℕ} {n m : NodeRef} (e : Relationship)
        → Leads k n
        → Seen n e
        → other_end e n r.direction ≡ some m
        → Leads (suc k) m

  abbrev pub Justified : Relationship → Type 0
  Justified e = (k : ℕ) × (n : NodeRef) × Leads k n × Seen n e

  pub record Sound (d : ℕ) (v : Visit) : Type 0 where
    pub paths : (n : NodeRef) (k : ℕ) → Memᴰ (n, k) v.visited → Leads k n × (k ≤ r.limits.max_depth)
    pub queued : (n : NodeRef) → Memᴰ n v.next → Memᴰ (n, d) v.visited
    pub justified : (e : Relationship) → Memᴰ e v.collected → Justified e
    pub nodes : length v.visited ≤ r.limits.max_nodes
    pub edges : length v.collected ≤ r.limits.max_edges

  abbrev pub Ends : (Visit → Type 0) → Flow E → Type 0
  Ends P (go v) = P v
  Ends P (stop v) = P v
  Ends P (failed x) = Unit

  -- What the walk counts and notes beside its sets does not matter.
  Sound-same :
      (d : ℕ) (v w : Visit)
      → v.visited ≡ w.visited
      → v.next ≡ w.next
      → v.collected ≡ w.collected
      → Sound d v
      → Sound d w
  Sound-same d v w a b c s = record {
    paths =
        subst (λ x. (n : NodeRef) (k : ℕ) → Memᴰ (n, k) x → Leads k n × (k ≤ r.limits.max_depth)) a
          s.paths;
    queued = λ n i. subst (λ x. Memᴰ (n, d) x) a (s.queued n (subst (λ x. Memᴰ n x) (sym b) i));
    justified = subst (λ x. (e : Relationship) → Memᴰ e x → Justified e) c s.justified;
    nodes = subst (λ x. length x ≤ r.limits.max_nodes) a s.nodes;
    edges = subst (λ x. length x ≤ r.limits.max_edges) c s.edges;
  }

  -- What the walk ends with, from some depth on.
  abbrev pub Final : Visit → Type 0
  Final v = (d : ℕ) × Sound d v

  abbrev pub EndsFinal : Flow E → Type 0
  EndsFinal f = Ends Final f
