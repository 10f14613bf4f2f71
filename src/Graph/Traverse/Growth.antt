-- ===== src/Graph/Traverse/Growth.antt =====
-- What the sets and maps of crates/brolga-graph/src/traverse.rs hold after an insertion.
use mathlib.Core.List.{Memᴰ}
use brolga.Prelude.{
  ℕ, suc, ◌≡◌, refl, ap, ◌⊎◌, inl, inr, ◌↔◌, true, List, [], ◌∷◌, leb, ◌==◌, if◌then◌else◌, length,
  Memᴰ-cons, arith, Bool-cases,
}
use brolga.Graph.Traverse.Edges.{
  NodeRef, entity, observable, node_eq, node_leb, is_visited, node_insert, Relationship, has_edge,
  edge_replace, edge_place, edge_insert,
}

pub node_eq_iff : (n m : NodeRef) → (node_eq n m ≡ true) ↔ (n ≡ m)
unfolding node_eq
node_eq_iff (entity a) (entity b) = (λ h. ap entity (ground arith), λ h. ground arith)
node_eq_iff (entity a) (observable b) = (λ h. cc, λ h. cc)
node_eq_iff (observable a) (entity b) = (λ h. cc, λ h. cc)
node_eq_iff (observable a) (observable b) = (λ h. ap observable (ground arith), λ h. ground arith)

pub is_visited-mem :
    (n : NodeRef) (v : List (NodeRef × ℕ)) → is_visited n v ≡ true → (k : ℕ) × Memᴰ (n, k) v
is_visited-mem n [] h = cc
is_visited-mem n ((m, d) ∷ v) h = elim (Bool-cases (node_eq n m)) [
  | inl q ↦ (d, Memᴰ.head (ap (λ x. (x, d)) ((node_eq_iff n m).0 q)))
  | inr q ↦ let (k, i) = is_visited-mem n v (ground arith) in (k, Memᴰ.tail i)
]

pub mem-is_visited :
    (n : NodeRef) (k : ℕ) (v : List (NodeRef × ℕ)) → Memᴰ (n, k) v → is_visited n v ≡ true
mem-is_visited n k [] i = elim i [ ]
mem-is_visited n k ((m, d) ∷ v) (Memᴰ.head e) =
    ground (arith, (node_eq_iff n m).1 (ap (λ x. x.0) e))
mem-is_visited n k ((m, d) ∷ v) (Memᴰ.tail i) = ground (arith, mem-is_visited n k v i)

pub mem-node_insert :
    (x n : NodeRef) (s : List NodeRef) → Memᴰ x (node_insert n s) ↔ ((x ≡ n) ⊎ Memᴰ x s)
unfolding node_insert
mem-node_insert x n [] = Memᴰ-cons x n []
mem-node_insert x n (m ∷ s) = elim (Bool-cases (node_eq n m)) [
  | inl q ↦ let e : n ≡ m = (node_eq_iff n m).0 q in rw q (ground (arith, e, Memᴰ-cons x m s))
  | inr q ↦ elim (Bool-cases (node_leb n m)) [
    | inl q' ↦ rw (q, q') (Memᴰ-cons x n (m ∷ s))
    | inr q' ↦
        rw (q, q')
          (ground (arith, Memᴰ-cons x m (node_insert n s), Memᴰ-cons x m s, mem-node_insert x n s))
  ]
]

-- An insertion brings in no other edge, and one more than there were unless the edge is there.
mem-edge_replace :
    (x e : Relationship) (s : List Relationship) → Memᴰ x (edge_replace e s) → (x ≡ e) ⊎ Memᴰ x s
unfolding edge_replace
mem-edge_replace x e [] = λ i. inr i
mem-edge_replace x e (f ∷ s) = elim (Bool-cases (e.id == f.id)) [
  | inl q ↦ rw q (ground (arith, Memᴰ-cons x e s, Memᴰ-cons x f s))
  | inr q ↦
      rw q
        (ground (arith, Memᴰ-cons x f (edge_replace e s), Memᴰ-cons x f s, mem-edge_replace x e s))
]

mem-edge_place :
    (x e : Relationship) (s : List Relationship) → Memᴰ x (edge_place e s) → (x ≡ e) ⊎ Memᴰ x s
unfolding edge_place
mem-edge_place x e [] = (Memᴰ-cons x e []).0
mem-edge_place x e (f ∷ s) = elim (Bool-cases (leb e.id f.id)) [
  | inl q ↦ rw q (ground (arith, Memᴰ-cons x e (f ∷ s)))
  | inr q ↦
      rw q (ground (arith, Memᴰ-cons x f (edge_place e s), Memᴰ-cons x f s, mem-edge_place x e s))
]

pub mem-edge_insert :
    (x e : Relationship) (s : List Relationship) → Memᴰ x (edge_insert e s) → (x ≡ e) ⊎ Memᴰ x s
unfolding edge_insert
mem-edge_insert x e s = elim (Bool-cases (has_edge e.id s)) [
  | inl q ↦ rw q (mem-edge_replace x e s)
  | inr q ↦ rw q (mem-edge_place x e s)
]

length-edge_replace :
    (e : Relationship) (s : List Relationship) → length (edge_replace e s) ≡ length s
unfolding edge_replace
length-edge_replace e [] = refl
length-edge_replace e (f ∷ s) = ground (arith, length-edge_replace e s)

length-edge_place :
    (e : Relationship) (s : List Relationship) → length (edge_place e s) ≡ suc (length s)
unfolding edge_place
length-edge_place e [] = refl
length-edge_place e (f ∷ s) = ground (arith, length-edge_place e s)

pub length-edge_insert :
    (e : Relationship) (s : List Relationship)
    → length (edge_insert e s) ≡ (if has_edge e.id s then length s else suc (length s))
unfolding edge_insert
length-edge_insert e s = ground (arith, length-edge_replace e s, length-edge_place e s)
