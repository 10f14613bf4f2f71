-- ===== src/Graph/Contradiction/Conflicts.antt =====
-- When `relate` of crates/brolga-graph/src/contradiction.rs finds a contradiction.
use brolga.Prelude.{
  ◌≡◌, refl, ◌∙◌, inl, inr, leb, Bool, true, false, ◌&&◌, ◌||◌, not, Option, none, some, text_eq,
  Bool-cases, arith,
}
use brolga.Graph.Traverse.Edges.{NodeRef, node_eq, entity, observable}
use brolga.Model.Temporal.{Timestamp}
use brolga.Graph.Contradiction.{
  is_analyst, Predicate, predicate_of, predicate_eq, is_contradiction, ReviewedClaim,
  ContradictionRules, same_assertion, is_revoked, is_superseded, instants_differ, ordered_in_time,
  bool_eq,
}
use brolga.Graph.Contradiction.Relate.{
  compare_values, relate_slot, relate_slots, relate_ordered, relate,
}
use brolga.Graph.Contradiction.Opposed.{
  opposed, one_slot, compared-opposed, text_eq_comm, opposed_comm,
}

-- Neither withdrawn nor replaced.
abbrev pub stands : ReviewedClaim → Bool
stands c = not (is_revoked c.status) && not (is_superseded c.status)

-- Two standing claims about one subject, both of analysts or both of sources, and not of one
-- publisher at two times, that assert opposed values.
abbrev pub disagree : ContradictionRules → ReviewedClaim → ReviewedClaim → Bool
disagree rules a b =
    node_eq a.subject b.subject
    && stands a
    && stands b
    && bool_eq (is_analyst a.stance) (is_analyst b.stance)
    && not (text_eq a.publisher b.publisher && ordered_in_time a b)
    && opposed rules a.assertion b.assertion

slot-contradiction :
    (rules : ContradictionRules) (a b : ReviewedClaim) (p : Predicate)
    → is_contradiction (relate_slot rules a b p).relation ≡ (
        stands a
        && stands b
        && bool_eq (is_analyst a.stance) (is_analyst b.stance)
        && not (text_eq a.publisher b.publisher && ordered_in_time a b)
        && is_contradiction (compare_values rules a.assertion b.assertion).0
        && not (same_assertion a.assertion b.assertion))
slot-contradiction rules a b p =
    let same = same_assertion a.assertion b.assertion in
    let changed = text_eq a.publisher b.publisher && ordered_in_time a b in
    let alike = bool_eq (is_analyst a.stance) (is_analyst b.stance) in
    elim (Bool-cases (is_revoked a.status || is_revoked b.status)) [
      | inl q ↦ rw q (ground (arith, q))
      | inr q ↦ elim (Bool-cases (is_superseded a.status || is_superseded b.status)) [
        | inl r ↦ rw (q, r) (ground (arith, q, r))
        | inr r ↦ elim (Bool-cases same) [
          | inl e ↦ rw (q, r, e) (ground (arith, q, r))
          | inr e ↦ elim (Bool-cases changed) [
            | inl c ↦ rw (q, r, e, c) (ground (arith, q, r, c))
            | inr c ↦ elim (Bool-cases alike) [
              | inl k ↦ rw (q, r, e, c, k) (ground (arith, q, r, c))
              | inr k ↦ rw (q, r, e, c, k) (ground (arith, q, r, c))
            ]
          ]
        ]
      ]
    ]

slots-contradiction :
    (rules : ContradictionRules) (a b : ReviewedClaim) (o q : Option Predicate)
    → is_contradiction (relate_slots rules a b o q).relation ≡ (
        one_slot o q
        && stands a
        && stands b
        && bool_eq (is_analyst a.stance) (is_analyst b.stance)
        && not (text_eq a.publisher b.publisher && ordered_in_time a b)
        && is_contradiction (compare_values rules a.assertion b.assertion).0
        && not (same_assertion a.assertion b.assertion))
slots-contradiction rules a b none q = refl
slots-contradiction rules a b (some p) none = refl
slots-contradiction rules a b (some p) (some q) = elim (Bool-cases (predicate_eq p q)) [
  | inl e ↦ rw e (slot-contradiction rules a b p)
  | inr e ↦ rw e refl
]

and_last :
    (o s t u v c n x : Bool)
    → (o && c && n) ≡ x
    → (o && s && t && u && v && c && n) ≡ (s && t && u && v && x)
and_last true true true true true c n x h = h
and_last true true true true false c n x h = refl
and_last true true true false v c n x h = refl
and_last true true false u v c n x h = refl
and_last true false t u v c n x h = refl
and_last false true true true true c n x h = h
and_last false true true true false c n x h = refl
and_last false true true false v c n x h = refl
and_last false true false u v c n x h = refl
and_last false false t u v c n x h = refl

ordered-disagree :
    (rules : ContradictionRules) (a b : ReviewedClaim)
    → is_contradiction (relate_ordered rules a b).relation ≡ disagree rules a b
unfolding relate_ordered
ordered-disagree rules a b = elim (Bool-cases (node_eq a.subject b.subject)) [
  | inr q ↦ rw (relate_ordered, q) refl
  | inl q ↦
      rw (relate_ordered, q)
        (slots-contradiction rules a b (predicate_of a.assertion) (predicate_of b.assertion)
          ∙ and_last (one_slot (predicate_of a.assertion) (predicate_of b.assertion)) (stands a)
              (stands b) (bool_eq (is_analyst a.stance) (is_analyst b.stance))
              (not (text_eq a.publisher b.publisher && ordered_in_time a b))
              (is_contradiction (compare_values rules a.assertion b.assertion).0)
              (not (same_assertion a.assertion b.assertion)) (opposed rules a.assertion b.assertion)
              (compared-opposed rules a.assertion b.assertion))
]

node_eq_comm : (m n : NodeRef) → node_eq m n ≡ node_eq n m
unfolding node_eq
node_eq_comm (entity a) (entity b) = ground arith
node_eq_comm (entity a) (observable b) = refl
node_eq_comm (observable a) (entity b) = refl
node_eq_comm (observable a) (observable b) = ground arith

bool_eq_comm : (a b : Bool) → bool_eq a b ≡ bool_eq b a
bool_eq_comm true true = refl
bool_eq_comm true false = refl
bool_eq_comm false true = refl
bool_eq_comm false false = refl

instants_differ_comm : (a b : Option Timestamp) → instants_differ a b ≡ instants_differ b a
instants_differ_comm none none = refl
instants_differ_comm none (some b) = refl
instants_differ_comm (some a) none = refl
instants_differ_comm (some a) (some b) = ground arith

disagree_comm :
    (rules : ContradictionRules) (a b : ReviewedClaim) → disagree rules a b ≡ disagree rules b a
disagree_comm rules a b = ground (
  arith,
  node_eq_comm a.subject b.subject,
  text_eq_comm a.publisher b.publisher,
  bool_eq_comm (is_analyst a.stance) (is_analyst b.stance),
  instants_differ_comm a.asserted_at b.asserted_at,
  opposed_comm rules a.assertion b.assertion,
)

-- Two claims are found to contradict one another exactly when they are standing claims about one
-- subject, both of analysts or both of sources, not of one publisher at two times, and assert
-- opposed values: a finding against the subject and one that clears it, or two values of an
-- attribute that was declared to have one.
pub relate-disagree :
    (rules : ContradictionRules) (a b : ReviewedClaim)
    → is_contradiction (relate rules a b).relation ≡ disagree rules a b
unfolding relate
relate-disagree rules a b = elim (Bool-cases (leb a.id b.id)) [
  | inl q ↦ rw q (ordered-disagree rules a b)
  | inr q ↦ rw q (ordered-disagree rules b a ∙ disagree_comm rules b a)
]
