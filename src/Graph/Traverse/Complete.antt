-- ===== src/Graph/Traverse/Complete.antt =====
-- When a traversal by crates/brolga-graph/src/traverse.rs reports no truncation, it is complete.
use mathlib.Core.List.{Memᴰ}
use mathlib.Core.List.Memᴰ
use brolga.Prelude.{
  u32_max, ℕ, zero, suc, ◌+◌, ◌≡◌, refl, sym, ap, ◌∙◌, ◌⊎◌, inl, inr, true, Option, List, [], ◌∷◌,
  arith, Bool-cases, subst, All-Memᴰ, Memᴰ-cons, All,
}
use Prim.Native.Nat.{min}
use brolga.Prelude.Results.{ok, ok-injective}
use brolga.Security.Cancel.{Cancelled}
use brolga.Graph.Traverse.Truncation.{Truncation, truncation_insert, truncation_insert-nonempty}
use brolga.Graph.Traverse.Edges.{NodeRef, StoreRead, TraversalRequest, is_visited}
use brolga.Graph.Traverse.Growth.{mem-is_visited, is_visited-mem}
use brolga.Graph.Traverse.Walk.{
  Visit, go, walk, visit_nodes, begin, run, Traversal, note_depth, is_empty, is_complete,
}
use brolga.Graph.Traverse.Grows.{
  Flow-cases, go-injective, Grows, Followed, Expanded, Expanded-later, visit_nodes-Grows,
}
use brolga.Graph.Traverse.Stops.{Notes, walk-Notes}
use brolga.Graph.Traverse.Sound.{Leads, here, step}
use brolga.Graph.Traverse.Returned.{mem-sort_reached, note_depth-nodes, run-ok}

nil_of_empty {ℓ} : {A : Type ℓ} (s : List A) → is_empty s ≡ true → s ≡ []
nil_of_empty [] h = refl
nil_of_empty (x ∷ s) h = cc

untroubled :
    (v : Visit) → is_empty (note_depth v).truncated ≡ true → (v.truncated ≡ []) × (v.next ≡ [])
untroubled v h = elim (Bool-cases (is_empty v.next)) [
  | inl q ↦ (nil_of_empty v.truncated (rw q at h), nil_of_empty v.next q)
  | inr q ↦ absurd (
      truncation_insert-nonempty Truncation.depth v.truncated
        (nil_of_empty (truncation_insert Truncation.depth v.truncated) (rw q at h)))
]

module _ {E : Type 0} (store : StoreRead E) (reason : ℕ → Option Cancelled)
    (r : TraversalRequest) where
  -- All that was visited has been expanded or waits in the frontier.
  abbrev Covered : Visit → List NodeRef → Type 0
  Covered v frontier =
      (n : NodeRef) (k : ℕ) → Memᴰ (n, k) v.visited → Expanded store r v n ⊎ Memᴰ n frontier

  walk-keeps :
      (hops d : ℕ) (v : Visit) (frontier : List NodeRef) (w : Visit)
      → walk store reason r hops d v frontier ≡ go w
      → ((x : NodeRef × ℕ) → Memᴰ x v.visited → Memᴰ x w.visited)
        × (w.truncated ≡ [] → v.truncated ≡ [])
  unfolding walk
  walk-keeps zero d v frontier w h =
      let p : record v { next = frontier } ≡ w = go-injective {E = E} h in
      (λ x i. subst (λ y. Memᴰ x y.visited) p i, λ t. ap (λ y. y.truncated) p ∙ t)
  walk-keeps (suc hops) d v [] w h =
      let p : record v { next = [] } ≡ w = go-injective {E = E} h in
      (λ x i. subst (λ y. Memᴰ x y.visited) p i, λ t. ap (λ y. y.truncated) p ∙ t)
  walk-keeps (suc hops) d v (n ∷ frontier) w h =
      let x = record v { next = [] } in
      elim (Flow-cases (visit_nodes store reason r d x (n ∷ frontier))) [
        | inl (u, q) ↦
            let g = (visit_nodes-Grows store reason r d x (n ∷ frontier) u q).0 in
            let (keeps, untruncated) =
              walk-keeps hops (min u32_max (d + 1)) u u.next w (rw (walk, q) at h) in
            (λ y i. keeps y (g.keeps y i), λ t. g.untruncated (untruncated t))
        | inr (inl (u, q)) ↦ absurd (ground arith)
        | inr (inr (u, q)) ↦ absurd (ground arith)
      ]

  level-Covered :
      (v u : Visit) (frontier : List NodeRef)
      → Grows (record v { next = [] }) u
      → All (Expanded store r u) frontier
      → Covered v frontier
      → Covered u u.next
  level-Covered v u frontier g expanded c n k i = elim (g.fresh n k i) [
    | inr j ↦ inr j
    | inl j ↦ elim (c n k j) [
      | inl e ↦ inl (Expanded-later store r (record v { next = [] }) u n g e)
      | inr f ↦ inl (All-Memᴰ (Expanded store r u) frontier expanded f)
    ]
  ]

  walk-Covered :
      (hops d : ℕ) (v : Visit) (frontier : List NodeRef) (w : Visit)
      → walk store reason r hops d v frontier ≡ go w
      → w.truncated ≡ []
      → Covered v frontier
      → Covered w w.next
  unfolding walk
  walk-Covered zero d v frontier w h t c =
      let p : record v { next = frontier } ≡ w = go-injective {E = E} h in
      subst (λ y. Covered y y.next) p c
  walk-Covered (suc hops) d v [] w h t c =
      let p : record v { next = [] } ≡ w = go-injective {E = E} h in
      subst (λ y. Covered y y.next) p c
  walk-Covered (suc hops) d v (n ∷ frontier) w h t c =
      let x = record v { next = [] } in
      elim (Flow-cases (visit_nodes store reason r d x (n ∷ frontier))) [
        | inl (u, q) ↦
            let rest = rw (walk, q) at h in
            let (g, expanded) = visit_nodes-Grows store reason r d x (n ∷ frontier) u q in
            let (_, untruncated) = walk-keeps hops (min u32_max (d + 1)) u u.next w rest in
            walk-Covered hops (min u32_max (d + 1)) u u.next w rest t
              (level-Covered v u (n ∷ frontier) g (expanded (untruncated t)) c)
        | inr (inl (u, q)) ↦ absurd (ground arith)
        | inr (inr (u, q)) ↦ absurd (ground arith)
      ]

  -- A node that edges lead to is visited, where all that was visited has been expanded.
  Leads-visited :
      (w : Visit)
      → Memᴰ (r.start, 0) w.visited
      → ((n : NodeRef) (k : ℕ) → Memᴰ (n, k) w.visited → Expanded store r w n)
      → {n : NodeRef} {k : ℕ} → Leads store r k n
      → is_visited n w.visited ≡ true
  Leads-visited w start expanded here = mem-is_visited r.start 0 w.visited start
  Leads-visited w start expanded (step {k} {n} {m} e l (rows, q, i, p) o) =
      let (j, at) = is_visited-mem n w.visited (Leads-visited w start expanded l) in
      let (rows', q', f) = expanded n j at in
      let same : rows' ≡ rows = ok-injective (sym q' ∙ q) in
      All-Memᴰ (Followed r n w) rows (subst (All (Followed r n w)) same f) i m p o

  start-Covered : Covered (begin r) (r.start ∷ [])
  unfolding begin
  start-Covered m j i = elim ((Memᴰ-cons (m, j) (r.start, 0) []).0 i) [
    | inl p ↦ inr (Memᴰ.head (ap (λ x. x.0) p))
    | inr e ↦ elim e [ ]
  ]

  -- A traversal that reports no truncation has reached every node that edges lead to from the start,
  -- of those that the store gives for a node and the policy permits.
  pub run-complete :
      (t : Traversal) (n : NodeRef) (k : ℕ)
      → run store reason r ≡ ok t
      → is_complete t ≡ true
      → Leads store r k n
      → (d : ℕ) × Memᴰ (n, d) t.nodes
  unfolding is_complete begin
  run-complete t n k h c l =
      let (v, o) = run-ok store reason r t h in
      elim o [
        | inl (q, p) ↦
            let (untruncated, finished) =
              untroubled v (ap (λ x. is_empty x.truncated) (sym p) ∙ c) in
            let (keeps, _) = walk-keeps r.limits.max_depth 0 (begin r) (r.start ∷ []) v q in
            let covered =
              walk-Covered r.limits.max_depth 0 (begin r) (r.start ∷ []) v q untruncated
                start-Covered in
            let expanded : (m : NodeRef) (j : ℕ) → Memᴰ (m, j) v.visited → Expanded store r v m =
              λ m j i. elim (covered m j i) [
                | inl e ↦ e
                | inr f ↦ absurd (Memᴰ.not-nil (subst (λ s. Memᴰ m s) finished f))
              ] in
            let seen = Leads-visited v (keeps (r.start, 0) (Memᴰ.head refl)) expanded l in
            let (d, i) = is_visited-mem n v.visited seen in
            (
              d,
              subst (λ s. Memᴰ (n, d) s) (sym (ap (λ x. x.nodes) p ∙ note_depth-nodes v))
                  ((mem-sort_reached (n, d) v.visited).1 i),
            )
        | inr (q, p) ↦
            let noted =
              subst (Notes E) q
                (walk-Notes E store reason r r.limits.max_depth 0 (begin r) (r.start ∷ [])) in
            absurd (noted (nil_of_empty v.truncated (ap (λ x. is_empty x.truncated) (sym p) ∙ c)))
      ]
