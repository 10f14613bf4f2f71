-- ===== src/Graph/Confidence/Scorer.antt =====
-- crates/brolga-graph/src/confidence.rs, `ConfidenceScorer`: the mean of the components, the
-- deductions from it, and the figure.
use Prim.Native.Nat.{min}
use brolga.Prelude.{
  ℕ, ◌-◌, ◌+◌, ◌/◌, Bool, true, false, Option, none, some, List, [], ◌∷◌, ◌++◌, codes, leb, ◌==◌,
  if◌then◌else◌, saturating_add, saturating_mul,
}
use brolga.Model.Confidence.{ConfidenceBreakdown, ConfidenceMethod, unexplained, min_score}
use brolga.Model.Status.{LifecycleStatus}
use brolga.Graph.Traverse.Edges.{node_eq, node_leb}
use brolga.Graph.Rank.Sorting.{sort_by}
use brolga.Graph.Contradiction.{ContradictionDecision}
use brolga.Graph.Contradiction.Review.{has_contradiction}
use brolga.Graph.Confidence.{
  ComponentName, from_parties, recency, name_rank, ConfidencePolicy, ScoreComponent, PenaltyReason,
  contradicted, publisher_withdrew, later_replaced, window_closed, Penalty, AnalystOverride,
}
use brolga.Graph.Confidence.Assessment.{ScoringInputs, ConfidenceAssessment}
use brolga.Graph.Confidence.Components.{score_of, components_of}

-- The sums of the loop of `weighted_mean`.
unfoldable pub weigh_components : List ScoreComponent → (weighted total : ℕ) → ℕ × ℕ
weigh_components [] weighted total = (weighted, total)
weigh_components (c ∷ cs) weighted total =
    weigh_components cs (saturating_add weighted (saturating_mul c.score c.weight))
      (saturating_add total c.weight)

-- `checked_div`, and `u8::try_from`.
abbrev pub mean_of : ℕ × ℕ → Option ℕ
mean_of (weighted, total) =
    let mean = min (weighted / total) 100 in
    if total == 0 then none else if leb mean 255 then some mean else none

unfoldable pub weighted_mean : List ScoreComponent → Option ℕ
unfolding weigh_components
weighted_mean cs = mean_of (weigh_components cs 0 0)

unfoldable pub component_score : List ScoreComponent → ComponentName → Option ℕ
component_score [] name = none
component_score (c ∷ cs) name =
    let rest = component_score cs name in
    if name_rank c.component == name_rank name then some c.score else rest

-- `withdrawal_reason`
abbrev pub withdrawal_reason : LifecycleStatus → Option PenaltyReason
withdrawal_reason LifecycleStatus.revoked = some publisher_withdrew
withdrawal_reason LifecycleStatus.superseded = some later_replaced
withdrawal_reason LifecycleStatus.expired = some window_closed
withdrawal_reason LifecycleStatus.active = none
withdrawal_reason LifecycleStatus.deprecated = none

abbrev pub sorts_before : ContradictionDecision → ContradictionDecision → Bool
sorts_before a b =
    if node_eq a.subject b.subject
    then (if a.left == b.left then leb a.right b.right else leb a.left b.left)
    else node_leb a.subject b.subject

-- The sum of the points, as a `u8`.
unfoldable pub deduction_from : ℕ → List Penalty → ℕ
deduction_from total [] = total
deduction_from total (p ∷ ps) = deduction_from (min 255 (total + p.points)) ps

module _ (p : ConfidencePolicy) where
  abbrev pub contradiction_penalties : Bool → List Penalty
  contradiction_penalties false = []
  contradiction_penalties true =
      (record {
        name = codes "contradicted";
        points = p.contradiction_penalty;
        reason = contradicted;
      })
      ∷ []

  abbrev pub withdrawal_penalties : Option PenaltyReason → List Penalty
  withdrawal_penalties none = []
  withdrawal_penalties (some reason) =
      (record { name = codes "not_current"; points = p.withdrawn_penalty; reason = reason }) ∷ []

  unfoldable pub penalties_of : List ContradictionDecision → LifecycleStatus → List Penalty
  unfolding has_contradiction
  penalties_of contradictions status =
      contradiction_penalties (has_contradiction contradictions)
      ++ withdrawal_penalties (withdrawal_reason status)

  -- The figure from a base, if there is one, less the deduction.
  unfoldable pub derived_of :
      (reliability credibility : Option ℕ)
      → List ScoreComponent
      → Option ℕ
      → ℕ
      → ConfidenceBreakdown
  unfolding score_of component_score unexplained
  derived_of reliability credibility components (some value) deduction = record {
    overall = score_of (value - deduction);
    method = ConfidenceMethod.derived;
    source_reliability = reliability;
    information_credibility = credibility;
    corroboration = component_score components from_parties;
    recency = component_score components recency;
  }
  derived_of reliability credibility components none deduction = unexplained min_score

  abbrev pub overridden : Option AnalystOverride → ConfidenceBreakdown → ConfidenceBreakdown
  overridden none b = b
  overridden (some o) b = record b {
    overall = o.score;
    method = ConfidenceMethod.operator_asserted;
  }

  -- `ConfidenceScorer::assess`
  unfoldable pub assess : ScoringInputs → ConfidenceAssessment
  unfolding components_of penalties_of derived_of weighted_mean deduction_from sort_by
  assess i =
      let components = components_of p i in
      let contradictions = sort_by sorts_before i.contradictions in
      let penalties = penalties_of contradictions i.status in
      let derived =
        derived_of i.source_reliability i.information_credibility components
          (weighted_mean components) (deduction_from 0 penalties) in
      record {
        subject = i.subject;
        components = components;
        penalties = penalties;
        derived = derived;
        analyst_override = i.analyst_override;
        breakdown = overridden i.analyst_override derived;
        contradictions = contradictions;
        algorithm = codes "brolga.confidence.weighted-components";
        algorithm_version = 2;
        policy_revision = p.revision;
      }
