-- ===== src/Graph/Confidence.antt =====
-- crates/brolga-graph/src/confidence.rs: a confidence figure composed of components, deductions and
-- an operator's own figure. The fixed texts of reasons are enumerations and a measurement is kept as
-- its numbers; the digest of a policy, a hash, and `explain` are left out.
pub mod Assessment
pub mod Components
pub mod Scorer
pub mod Mean
pub mod Figure
pub mod Raised
pub mod Copies
pub mod Unknown
pub mod Reviewed
use Prim.Native.Nat.{min}
use brolga.Prelude.{
  ℕ, suc, ◌+◌, ◌-◌, ◌/◌, Bool, true, false, Option, none, some, is_some, List, [], ◌∷◌, ◌++◌, map,
  Text, codes, leb, ltb, ◌==◌, if◌then◌else◌, length, saturating_add, saturating_mul,
}
use brolga.Prelude.Results.{Result, ok, err}
use brolga.Model.Confidence.{
  ConfidenceBreakdown, ConfidenceMethod, derived, operator_asserted, unexplained, confidence_score,
  min_score, max_score,
}
use brolga.Model.Confidence as Model
use brolga.Model.Status.{LifecycleStatus}
use brolga.Model.Temporal.{Timestamp}
use brolga.Model.Vocabulary.{nth}
use brolga.Graph.Traverse.Edges.{NodeRef, node_eq, node_leb}
use brolga.Graph.Rank.Sorting.{sort_by, place}
use brolga.Graph.Resolve.{is_blank}
use brolga.Graph.Dedup.{
  DedupVerdict, increases_corroboration, DedupDecision, RecordLineage, corroboration,
}
use brolga.Graph.Decay.Policy.{
  DecayPolicy, defaults, profile_for, policy_standing_after, age_in_days,
}
use brolga.Graph.Decay.Ledger.{bounded}
use brolga.Graph.Contradiction.{
  ClaimStance, observed, reported, inferred, analyst, ContradictionDecision,
}
use brolga.Graph.Contradiction.Review.{has_contradiction, conflict_count}

-- The constants `COMPONENT_…`.
pub data ComponentName : Type 0 where
  source_reliability information_credibility from_parties recency stance : ComponentName

-- The equality of those texts, as that of numbers.
abbrev pub name_rank : ComponentName → ℕ
name_rank source_reliability = 0
name_rank information_credibility = 1
name_rank from_parties = 2
name_rank recency = 3
name_rank stance = 4

pub record ComponentWeights : Type 0 where
  pub source_reliability : ℕ
  pub information_credibility : ℕ
  pub corroboration : ℕ
  pub recency : ℕ
  pub stance : ℕ

-- `ComponentWeights::defaults`
abbrev pub default_weights : ComponentWeights
default_weights = record {
  source_reliability = 3;
  information_credibility = 3;
  corroboration = 3;
  recency = 2;
  stance = 1;
}

pub record ConfidencePolicy : Type 0 where
  pub revision : ℕ
  pub weights : ComponentWeights
  pub corroboration_ladder : List ℕ
  pub decay : DecayPolicy
  pub stance_scores : ClaimStance → Option ℕ
  pub contradiction_penalty : ℕ
  pub withdrawn_penalty : ℕ

abbrev pub default_stances : ClaimStance → Option ℕ
default_stances observed = some 100
default_stances analyst = some 90
default_stances reported = some 70
default_stances inferred = some 55

-- `ConfidencePolicy::defaults`
abbrev pub default_policy : ConfidencePolicy
default_policy = record {
  revision = 1;
  weights = default_weights;
  corroboration_ladder = 0 ∷ 25 ∷ 60 ∷ 80 ∷ 90 ∷ 100 ∷ [];
  decay = defaults;
  stance_scores = default_stances;
  contradiction_penalty = 25;
  withdrawn_penalty = 40;
}

abbrev pub or_zero : Option ℕ → ℕ
or_zero none = 0
or_zero (some n) = n

unfoldable pub corroboration_score : ConfidencePolicy → ℕ → ℕ
corroboration_score p independent_parties =
    let last = length p.corroboration_ladder - 1 in
    or_zero (nth p.corroboration_ladder (min independent_parties last))

unfoldable pub recency_score : ConfidencePolicy → Option Text → ℕ → ℕ
recency_score p kind age = policy_standing_after p.decay kind age

abbrev pub stance_score : ConfidencePolicy → ClaimStance → Option ℕ
stance_score p s = p.stance_scores s

pub record Corroboration : Type 0 where
  pub independent_parties : ℕ
  pub discounted_observations : ℕ

abbrev pub discounted : List DedupDecision → ℕ
discounted [] = 0
discounted (d ∷ ds) =
    let rest = discounted ds in if increases_corroboration d.verdict then rest else suc rest

unfoldable pub from_lineage : RecordLineage → Corroboration
unfolding increases_corroboration corroboration
from_lineage l = record {
  independent_parties = corroboration l;
  discounted_observations = discounted l.decisions;
}

abbrev pub discounted_anything : Corroboration → Bool
discounted_anything c = ltb 0 c.discounted_observations

pub data ScoreReason : Type 0 where
  track_record report_credibility judged_independent copies_discounted : ScoreReason
  exempt_from_decay on_the_decay_curve how_held : ScoreReason

pub data Measurement : Type 0 where
  counted : (independent discounted : ℕ) → Measurement
  aged : (age half_life floor : ℕ) → Measurement
  held : ClaimStance → Measurement

pub record ScoreComponent : Type 0 where
  pub component : ComponentName
  pub score : ℕ
  pub weight : ℕ
  pub reason : ScoreReason
  pub evidence : Option Measurement

pub data PenaltyReason : Type 0 where
  contradicted publisher_withdrew later_replaced window_closed : PenaltyReason

pub record Penalty : Type 0 where
  pub name : Text
  pub points : ℕ
  pub reason : PenaltyReason

pub data OverrideRefused : Type 0 where
  no_actor no_policy_context : OverrideRefused

pub record AnalystOverride : Type 0 where
  pub score : ℕ
  pub actor : Text
  pub policy_context : Text
  pub note : Option Text

-- `AnalystOverride::new`, by what counts as white space.
unfoldable pub new_override :
    (ℕ → Bool)
    → ℕ
    → (actor policy_context : Text) → Option Text
    → Result OverrideRefused AnalystOverride
unfolding is_blank bounded
new_override is_whitespace score actor policy_context note =
    if is_blank is_whitespace actor
    then err no_actor
    else if is_blank is_whitespace policy_context
    then err no_policy_context
    else ok (record {
      score = score;
      actor = bounded actor;
      policy_context = bounded policy_context;
      note = map_note note;
    })
  where
    map_note : Option Text → Option Text
    map_note none = none
    map_note (some text) = some (bounded text)
