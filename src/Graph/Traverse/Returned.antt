-- ===== src/Graph/Traverse/Returned.antt =====
-- What a traversal by crates/brolga-graph/src/traverse.rs returns is in budget and sound.
use mathlib.Core.List.{Memᴰ}
use brolga.Prelude.{
  u32_max, ℕ, suc, ◌≤◌, ◌<◌, ◌≡◌, refl, sym, ap, ◌∙◌, ◌⊎◌, inl, inr, ◌↔◌, Option, List, [], ◌∷◌,
  length, arith, Bool-cases, subst, Memᴰ-cons,
}
use brolga.Prelude.Results.{ok, ok-injective}
use brolga.Security.Cancel.{Cancelled}
use brolga.Graph.Traverse.Edges.{NodeRef, Relationship, StoreRead, TraversalRequest}
use brolga.Graph.Traverse.Walk.{
  Visit, Flow, go, stop, walk, begin, run, returned, Traversal, traversal_of, note_depth, is_empty,
  reached_leb, reached_insert, sort_reached,
}
use brolga.Graph.Traverse.Grows.{Flow-cases}
use brolga.Graph.Traverse.Sound.{Leads, Justified, Sound, EndsFinal}
use brolga.Graph.Traverse.Sound.Walking.{all-Sound}

mem-reached_insert :
    (x a : NodeRef × ℕ) (s : List (NodeRef × ℕ))
    → Memᴰ x (reached_insert a s) ↔ ((x ≡ a) ⊎ Memᴰ x s)
unfolding reached_insert
mem-reached_insert x a [] = Memᴰ-cons x a []
mem-reached_insert x a (b ∷ s) = elim (Bool-cases (reached_leb a b)) [
  | inl q ↦ rw q (Memᴰ-cons x a (b ∷ s))
  | inr q ↦ rw q (
      ground (arith, Memᴰ-cons x b (reached_insert a s), Memᴰ-cons x b s, mem-reached_insert x a s))
]

pub mem-sort_reached :
    (x : NodeRef × ℕ) (s : List (NodeRef × ℕ)) → Memᴰ x (sort_reached s) ↔ Memᴰ x s
unfolding sort_reached
mem-sort_reached x [] = (λ i. i, λ i. i)
mem-sort_reached x (a ∷ s) =
    ground (arith, mem-reached_insert x a (sort_reached s), Memᴰ-cons x a s, mem-sort_reached x s)

length-reached_insert :
    (a : NodeRef × ℕ) (s : List (NodeRef × ℕ)) → length (reached_insert a s) ≡ suc (length s)
unfolding reached_insert
length-reached_insert a [] = refl
length-reached_insert a (b ∷ s) = ground (arith, length-reached_insert a s)

length-sort_reached : (s : List (NodeRef × ℕ)) → length (sort_reached s) ≡ length s
unfolding sort_reached
length-sort_reached [] = refl
length-sort_reached (a ∷ s) =
    omega (arith, length-reached_insert a (sort_reached s), length-sort_reached s)

pub note_depth-nodes : (v : Visit) → sort_reached (note_depth v).visited ≡ sort_reached v.visited
note_depth-nodes v = elim (Bool-cases (is_empty v.next)) [ inl q ↦ simp q | inr q ↦ simp q ]

note_depth-edges : (v : Visit) → (note_depth v).collected ≡ v.collected
note_depth-edges v = elim (Bool-cases (is_empty v.next)) [ inl q ↦ simp q | inr q ↦ simp q ]

module _ {E : Type 0} (store : StoreRead E) (reason : ℕ → Option Cancelled)
    (r : TraversalRequest) where
  abbrev pub whole : Flow E
  whole = walk store reason r r.limits.max_depth 0 (begin r) (r.start ∷ [])

  pub run-ok :
      (t : Traversal)
      → run store reason r ≡ ok t
      → (v : Visit) × (((whole ≡ go v) × (t ≡ traversal_of r.start (note_depth v)))
          ⊎ ((whole ≡ stop v) × (t ≡ traversal_of r.start v)))
  unfolding run
  run-ok t h = elim (Flow-cases whole) [
    | inl (v, q) ↦ (v, inl (q, sym (ok-injective (ap (λ f. returned f r.start) (sym q) ∙ h))))
    | inr (inl (v, q)) ↦ (v, inr (q, sym (ok-injective (ap (λ f. returned f r.start) (sym q) ∙ h))))
    | inr (inr (x, q)) ↦ absurd (ground arith)
  ]

  -- What a traversal holds of its start, nodes and edges is right.
  pub record Right (t : Traversal) : Type 0 where
    pub leads :
        (n : NodeRef) (k : ℕ) → Memᴰ (n, k) t.nodes → Leads store r k n × (k ≤ r.limits.max_depth)
    pub justified : (e : Relationship) → Memᴰ e t.edges → Justified store r e
    pub nodes : length t.nodes ≤ r.limits.max_nodes
    pub edges : length t.edges ≤ r.limits.max_edges

  Right-of :
      (d : ℕ) (v : Visit)
      → Sound store r d v
      → (t : Traversal) → t.nodes ≡ sort_reached v.visited
      → t.edges ≡ v.collected
      → Right t
  Right-of d v s t p q = record {
    leads = λ n k i.
        s.paths n k ((mem-sort_reached (n, k) v.visited).0 (subst (λ l. Memᴰ (n, k) l) p i));
    justified = λ e i. s.justified e (subst (λ l. Memᴰ e l) q i);
    nodes = omega (arith, s.nodes, length-sort_reached v.visited, ap length p);
    edges = omega (arith, s.edges, ap length q);
  }

  -- A traversal with a budget of nodes, and of hops in a `u32`, holds no more nodes and edges than its
  -- budgets. Each node is reached from the start by as many edges as its depth says, at most the
  -- budget of hops, each of which the store gives and the policy permits, and so is each edge.
  pub run-Right :
      (t : Traversal)
      → 0 < r.limits.max_nodes
      → r.limits.max_depth ≤ u32_max
      → run store reason r ≡ ok t
      → Right t
  run-Right t pos wide h =
      let (v, o) = run-ok t h in
      let sound = all-Sound store r reason wide pos in
      elim o [
        | inl (q, p) ↦
            let (d, s) = subst (EndsFinal store r) q sound in
            Right-of d v s t (ap (λ x. x.nodes) p ∙ note_depth-nodes v)
              (ap (λ x. x.edges) p ∙ note_depth-edges v)
        | inr (q, p) ↦
            let (d, s) = subst (EndsFinal store r) q sound in
            Right-of d v s t (ap (λ x. x.nodes) p) (ap (λ x. x.edges) p)
      ]
