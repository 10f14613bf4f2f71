-- ===== src/Graph/Contradiction/Review.antt =====
-- crates/brolga-graph/src/contradiction.rs, `review` and its report. The text of a subject, by which
-- decisions are sorted, is a parameter.
use brolga.Prelude.{
  ℕ, suc, ◌+◌, ◌==◌, ◌≡◌, refl, ◌∙◌, inl, inr, leb, ltb, Bool, false, ◌&&◌, ◌||◌, Option, none,
  some, List, [], ◌∷◌, ◌++◌, Text, codes, text_eq, text_leb, if◌then◌else◌, Bool-cases, arith,
}
use brolga.Graph.Traverse.Edges.{NodeRef}
use brolga.Graph.Rank.Sorting.{sort_by, place}
use brolga.Graph.Contradiction.{
  Predicate, of_disposition, of_attribute, is_contradiction, ReviewedClaim, ContradictionDecision,
  ContradictionRules,
}
use brolga.Graph.Contradiction.Relate.{relate}
use brolga.Graph.Contradiction.Conflicts.{disagree, relate-disagree}

abbrev pub label : Predicate → Text
label of_disposition = codes "disposition"
label (of_attribute name) = codes "attribute:" ++ name

abbrev pub slot_label : Option Predicate → Text
slot_label none = []
slot_label (some p) = label p

module _ (node_text : NodeRef → Text) where
  -- By subject, then slot, then identifiers.
  abbrev pub sorts_before : ContradictionDecision → ContradictionDecision → Bool
  sorts_before a b =
      if text_eq (node_text a.subject) (node_text b.subject)
      then (if text_eq (slot_label a.predicate) (slot_label b.predicate)
          then ltb a.left b.left || (a.left == b.left && leb a.right b.right)
          else text_leb (slot_label a.predicate) (slot_label b.predicate))
      else text_leb (node_text a.subject) (node_text b.subject)

module _ (rules : ContradictionRules) where
  unfoldable pub relate_all : ReviewedClaim → List ReviewedClaim → List ContradictionDecision
  unfolding relate
  relate_all a [] = []
  relate_all a (b ∷ bs) = relate rules a b ∷ relate_all a bs

  unfoldable pub every_pair : List ReviewedClaim → List ContradictionDecision
  unfolding relate_all
  every_pair [] = []
  every_pair (a ∷ claims) = relate_all a claims ++ every_pair claims

  -- `ContradictionDetector::review`
  unfoldable pub review : (NodeRef → Text) → List ReviewedClaim → List ContradictionDecision
  unfolding every_pair sort_by
  review node_text claims = sort_by (sorts_before node_text) (every_pair claims)

-- `ContradictionReport::contradictions`
unfoldable pub contradictions : List ContradictionDecision → List ContradictionDecision
contradictions [] = []
contradictions (d ∷ ds) =
    let rest = contradictions ds in if is_contradiction d.relation then d ∷ rest else rest

unfoldable pub conflict_count : List ContradictionDecision → ℕ
conflict_count [] = 0
conflict_count (d ∷ ds) =
    let rest = conflict_count ds in if is_contradiction d.relation then suc rest else rest

unfoldable pub has_contradiction : List ContradictionDecision → Bool
has_contradiction [] = false
has_contradiction (d ∷ ds) = is_contradiction d.relation || has_contradiction ds

-- How many of these disagree with the claim, and how many pairs of the claims disagree.
abbrev pub disagreeing : ContradictionRules → ReviewedClaim → List ReviewedClaim → ℕ
disagreeing rules a [] = 0
disagreeing rules a (b ∷ bs) =
    if disagree rules a b then suc (disagreeing rules a bs) else disagreeing rules a bs

abbrev pub disagreements : ContradictionRules → List ReviewedClaim → ℕ
disagreements rules [] = 0
disagreements rules (a ∷ claims) = disagreeing rules a claims + disagreements rules claims

conflict_count-append :
    (xs ys : List ContradictionDecision)
    → conflict_count (xs ++ ys) ≡ conflict_count xs + conflict_count ys
unfolding conflict_count
conflict_count-append [] ys = omega arith
conflict_count-append (d ∷ xs) ys = ground (arith, conflict_count-append xs ys)

conflict_count-place :
    (le : ContradictionDecision → ContradictionDecision → Bool) (d : ContradictionDecision)
    (ds : List ContradictionDecision)
    → conflict_count (place le d ds) ≡ conflict_count (d ∷ ds)
unfolding conflict_count place
conflict_count-place le d [] = refl
conflict_count-place le d (e ∷ ds) = elim (Bool-cases (le d e)) [
  | inl q ↦ rw q refl
  | inr q ↦ rw q (ground (arith, conflict_count-place le d ds))
]

conflict_count-sort_by :
    (le : ContradictionDecision → ContradictionDecision → Bool) (ds : List ContradictionDecision)
    → conflict_count (sort_by le ds) ≡ conflict_count ds
unfolding conflict_count sort_by
conflict_count-sort_by le [] = refl
conflict_count-sort_by le (d ∷ ds) =
    conflict_count-place le d (sort_by le ds) ∙ ground (arith, conflict_count-sort_by le ds)

module _ (rules : ContradictionRules) where
  conflict_count-relate_all :
      (a : ReviewedClaim) (bs : List ReviewedClaim)
      → conflict_count (relate_all rules a bs) ≡ disagreeing rules a bs
  unfolding conflict_count relate_all
  conflict_count-relate_all a [] = refl
  conflict_count-relate_all a (b ∷ bs) =
      rw (relate-disagree rules a b, conflict_count-relate_all a bs) refl

  conflict_count-every_pair :
      (claims : List ReviewedClaim)
      → conflict_count (every_pair rules claims) ≡ disagreements rules claims
  unfolding conflict_count every_pair
  conflict_count-every_pair [] = refl
  conflict_count-every_pair (a ∷ claims) =
      conflict_count-append (relate_all rules a claims) (every_pair rules claims)
      ∙ rw (conflict_count-relate_all a claims, conflict_count-every_pair claims) refl

  -- A review counts as conflicts the pairs of its claims that disagree.
  pub conflict_count-review :
      (node_text : NodeRef → Text) (claims : List ReviewedClaim)
      → conflict_count (review rules node_text claims) ≡ disagreements rules claims
  unfolding review
  conflict_count-review node_text claims =
      conflict_count-sort_by (sorts_before node_text) (every_pair rules claims)
      ∙ conflict_count-every_pair claims
