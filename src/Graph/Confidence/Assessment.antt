-- ===== src/Graph/Confidence/Assessment.antt =====
-- crates/brolga-graph/src/confidence.rs: what an assessment is made of, and what it says.
use brolga.Prelude.{ℕ, not, is_some, Bool, true, false, Option, none, List, [], ◌∷◌, Text}
use brolga.Model.Confidence.{ConfidenceBreakdown}
use brolga.Model.Status.{LifecycleStatus}
use brolga.Model.Temporal.{Timestamp}
use brolga.Graph.Decay.Ledger.{bounded}
use brolga.Graph.Contradiction.{ClaimStance, ContradictionDecision}
use brolga.Graph.Contradiction.Review.{conflict_count}
use brolga.Graph.Confidence.{Corroboration, ScoreComponent, Penalty, AnalystOverride}

pub record ScoringInputs : Type 0 where
  pub subject : Text
  pub kind : Option Text
  pub source_reliability : Option ℕ
  pub information_credibility : Option ℕ
  pub corroboration : Option Corroboration
  pub observed_at : Option Timestamp
  pub now : Timestamp
  pub stance : ClaimStance
  pub status : LifecycleStatus
  pub contradictions : List ContradictionDecision
  pub analyst_override : Option AnalystOverride

-- `ScoringInputs::unknown`
unfoldable pub unknown : Text → Timestamp → ClaimStance → ScoringInputs
unfolding bounded
unknown subject now held_as = record {
  subject = bounded subject;
  kind = none;
  source_reliability = none;
  information_credibility = none;
  corroboration = none;
  observed_at = none;
  now = now;
  stance = held_as;
  status = LifecycleStatus.active;
  contradictions = [];
  analyst_override = none;
}

pub record ConfidenceAssessment : Type 0 where
  pub subject : Text
  pub components : List ScoreComponent
  pub penalties : List Penalty
  pub derived : ConfidenceBreakdown
  pub analyst_override : Option AnalystOverride
  pub breakdown : ConfidenceBreakdown
  pub contradictions : List ContradictionDecision
  pub algorithm : Text
  pub algorithm_version : ℕ
  pub policy_revision : ℕ

-- `ConfidenceAssessment::contradiction_count`
unfoldable pub contradiction_count : ConfidenceAssessment → ℕ
unfolding conflict_count
contradiction_count a = conflict_count a.contradictions

-- `ConfidenceAssessment::is_explained`
unfoldable pub is_explained : ConfidenceAssessment → Bool
is_explained a = not (is_nil a.components)
  where
    is_nil : List ScoreComponent → Bool
    is_nil [] = true
    is_nil (c ∷ cs) = false

-- `ConfidenceAssessment::is_overridden`
unfoldable pub is_overridden : ConfidenceAssessment → Bool
is_overridden a = is_some a.analyst_override
