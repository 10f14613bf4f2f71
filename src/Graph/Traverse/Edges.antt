-- ===== src/Graph/Traverse/Edges.antt =====
-- crates/brolga-graph/src/traverse.rs: nodes and edges, and the sets and maps of them.
-- An `Id` is a number: it is compared and ordered only, and of an edge only what the walk reads is
-- kept. The store is an interface, with the request's predicate fixed in it.
use brolga.Prelude.{
  ℕ, Bool, true, false, ◌&&◌, ◌||◌, Option, none, some, List, [], ◌∷◌, leb, ◌==◌, if◌then◌else◌,
}
use brolga.Prelude.Results.{Result}
use brolga.Model.Marking.{MarkingSet}
use brolga.Graph.Traverse.{TraversalLimits, TraversalPolicy}

pub data NodeRef : Type 0 where
  entity observable : ℕ → NodeRef

-- The derived equality and order.
unfoldable pub node_eq : NodeRef → NodeRef → Bool
node_eq (entity a) (entity b) = a == b
node_eq (entity a) (observable b) = false
node_eq (observable a) (entity b) = false
node_eq (observable a) (observable b) = a == b

unfoldable pub node_leb : NodeRef → NodeRef → Bool
node_leb (entity a) (entity b) = leb a b
node_leb (entity a) (observable b) = true
node_leb (observable a) (entity b) = false
node_leb (observable a) (observable b) = leb a b

pub data Direction : Type 0 where
  outgoing incoming either : Direction

unfoldable pub includes_source : Direction → Bool
includes_source incoming = false
includes_source _ = true

unfoldable pub includes_target : Direction → Bool
includes_target outgoing = false
includes_target _ = true

pub record Relationship : Type 0 where
  pub id : ℕ
  pub source : NodeRef
  pub target : NodeRef
  pub markings : MarkingSet

-- The end of an edge that is not the node it was expanded from.
unfoldable pub other_end : Relationship → NodeRef → Direction → Option NodeRef
unfolding includes_source includes_target
other_end e node d =
    if includes_source d && node_eq e.source node
    then some e.target
    else if includes_target d && node_eq e.target node
    then some e.source
    else none

pub record StoreRead (E : Type 0) : Type 0 where
  pub edges_at : NodeRef → ℕ → Result E (List Relationship)
  pub get_entity : ℕ → Result E (Option MarkingSet)
  pub degree : Result E ℕ

pub record TraversalRequest : Type 0 where
  pub start : NodeRef
  pub direction : Direction
  pub limits : TraversalLimits
  pub policy : TraversalPolicy

abbrev pub is_visited : NodeRef → List (NodeRef × ℕ) → Bool
is_visited n [] = false
is_visited n ((m, d) ∷ v) = node_eq n m || is_visited n v

-- A `BTreeSet` of nodes as its elements in order.
unfoldable pub node_insert : NodeRef → List NodeRef → List NodeRef
node_insert n [] = n ∷ []
node_insert n (m ∷ s) =
    let rest = node_insert n s in
    if node_eq n m then m ∷ s else if node_leb n m then n ∷ m ∷ s else m ∷ rest

-- A `BTreeMap` of edges by their identifiers, in order.
unfoldable pub has_edge : ℕ → List Relationship → Bool
has_edge k [] = false
has_edge k (e ∷ s) = k == e.id || has_edge k s

unfoldable pub edge_replace : Relationship → List Relationship → List Relationship
edge_replace e [] = []
edge_replace e (f ∷ s) = let rest = edge_replace e s in if e.id == f.id then e ∷ s else f ∷ rest

unfoldable pub edge_place : Relationship → List Relationship → List Relationship
edge_place e [] = e ∷ []
edge_place e (f ∷ s) = let rest = edge_place e s in if leb e.id f.id then e ∷ f ∷ s else f ∷ rest

unfoldable pub edge_insert : Relationship → List Relationship → List Relationship
edge_insert e s = if has_edge e.id s then edge_replace e s else edge_place e s
