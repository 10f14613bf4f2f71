-- ===== src/Graph/Contradiction/Relate.antt =====
-- crates/brolga-graph/src/contradiction.rs, `ContradictionDetector::relate`.
use brolga.Prelude.{leb, Bool, ◌&&◌, ◌||◌, not, Option, none, some, Text, text_eq, if◌then◌else◌}
use brolga.Model.Marking.{most_restrictive_tlp}
use brolga.Graph.Traverse.Edges.{node_eq}
use brolga.Graph.Contradiction.{
  Assertion, ClaimRelation, ContradictionDecision, ContradictionRules, Predicate, Reason,
  ReviewedClaim, agrees, allowed, analyst_decided, analyst_override, attribute, bool_eq, bounded,
  changed_mind, compatible, conflicts, disposition, disposition_rule, exceeds, is_analyst, is_quote,
  is_revoked, is_superseded, mem_text, multi_valued, no_rule, no_slot, one_valued, ordered_in_time,
  other_questions, other_subjects, predicate_eq, predicate_of, quoted_pair, replaced, revoked,
  same_assertion, same_value, supersedes, undecided, unrelated, withdrawn,
}

module _ (rules : ContradictionRules) where
  unfoldable pub quotation_forbidden : ReviewedClaim → ReviewedClaim → Bool
  unfolding most_restrictive_tlp
  quotation_forbidden a b =
      exceeds rules.evidence_ceiling (most_restrictive_tlp a.markings)
      || exceeds rules.evidence_ceiling (most_restrictive_tlp b.markings)

  unfoldable pub compare_values : Assertion → Assertion → ClaimRelation × Reason
  unfolding disposition_rule
  compare_values (disposition a) (disposition b) = disposition_rule a b
  compare_values (attribute name value) (attribute other_name other_value) =
      if mem_text name rules.single_valued
      then (conflicts, one_valued)
      else (compatible, multi_valued)
  compare_values _ _ = (undecided, no_rule)

  -- The closure `decide`, of an ordered pair.
  abbrev pub decide :
      ReviewedClaim
      → ReviewedClaim
      → Option Predicate
      → ClaimRelation × Reason
      → Option Text
      → ContradictionDecision
  decide first second predicate (relation, reason) evidence = record {
    subject = first.subject;
    predicate = predicate;
    left = first.id;
    right = second.id;
    relation = relation;
    reason = reason;
    evidence = allowed (quotation_forbidden first second) evidence;
    evidence_withheld = quotation_forbidden first second && is_quote evidence;
  }

  -- From the claims' having one slot on.
  abbrev pub relate_slot : ReviewedClaim → ReviewedClaim → Predicate → ContradictionDecision
  relate_slot a b slot =
      let same = same_assertion a.assertion b.assertion in
      let quote = some (quoted_pair a.assertion b.assertion) in
      if is_revoked a.status || is_revoked b.status
      then decide a b (some slot) (revoked, withdrawn) none
      else if is_superseded a.status || is_superseded b.status
      then decide a b (some slot) (supersedes, replaced) none
      else if not same && text_eq a.publisher b.publisher && ordered_in_time a b
      then decide a b (some slot) (supersedes, changed_mind) quote
      else if not same && not (bool_eq (is_analyst a.stance) (is_analyst b.stance))
      then decide a b (some slot) (analyst_override, analyst_decided) quote
      else if same
      then decide a b (some slot) (agrees, same_value) quote
      else decide a b (some slot) (compare_values a.assertion b.assertion) quote

  abbrev pub relate_slots :
      ReviewedClaim → ReviewedClaim → Option Predicate → Option Predicate → ContradictionDecision
  relate_slots a b (some p) (some q) =
      if not (predicate_eq p q)
      then decide a b none (unrelated, other_questions) none
      else relate_slot a b p
  relate_slots a b none q = decide a b none (unrelated, no_slot) none
  relate_slots a b (some p) none = decide a b none (unrelated, no_slot) none

  unfoldable pub relate_ordered : ReviewedClaim → ReviewedClaim → ContradictionDecision
  unfolding quotation_forbidden compare_values same_assertion bounded
  relate_ordered a b =
      if not (node_eq a.subject b.subject)
      then decide a b none (unrelated, other_subjects) none
      else relate_slots a b (predicate_of a.assertion) (predicate_of b.assertion)

  -- `ContradictionDetector::relate`
  unfoldable pub relate : ReviewedClaim → ReviewedClaim → ContradictionDecision
  unfolding relate_ordered
  relate left right =
      if leb left.id right.id then relate_ordered left right else relate_ordered right left
