-- ===== src/Tests/Confidence.antt =====
-- Runs of crates/brolga-graph/src/confidence.rs.
use mathlib.Core.List.{Memᴰ, Perm}
use mathlib.Core.List.Perm
use brolga.Prelude.{◌*◌, ◌≤◌, ◌≡◌, refl, true, false, none, some, [], ◌∷◌, codes, text_eq, arith}
use brolga.Prelude.TextMap.{get, insert}
use brolga.Model.Status.{LifecycleStatus}
use brolga.Graph.Traverse.Edges.{observable, node_eq}
use brolga.Graph.Rank.Sorting.{Sorted, place}
use brolga.Graph.Contradiction.{
  ContradictionDecision, conflicts, agrees, malicious_benign, same_value, reported, observed,
}
use brolga.Graph.Dedup.{Observation, new, observe, observe_all, prior_of, lineage_of}
use brolga.Graph.Decay.{standing_after, interpolated, shifted}
use brolga.Graph.Decay.Policy.{rejected, profile_for, policy_standing_after, age_in_days}
use brolga.Graph.Confidence.{default_policy, ConfidencePolicy}
use brolga.Graph.Confidence.Scorer.{assess, sorts_before}
use brolga.Graph.Confidence.Assessment.{ScoringInputs, unknown, is_explained}
use brolga.Graph.Confidence.Components.{components_of}
use brolga.Graph.Confidence.Mean.{total_of, weight_of}
use brolga.Graph.Confidence.Figure.{IsPolicy, IsFigure, owed, assess-IsFigure}
use brolga.Graph.Confidence.Raised.{NoWorse, assess_mono}
use brolga.Graph.Confidence.Reviewed.{assess_order}
use brolga.Graph.Confidence.Unknown.{assess-unknown}
use brolga.Model.Confidence.{ConfidenceMethod}
use brolga.Graph.Confidence.Copies.{corroborated_by, copy_keeps_figure}

abbrev disagreement : ContradictionDecision
disagreement = record {
  subject = observable 7;
  predicate = none;
  left = 2;
  right = 3;
  relation = conflicts;
  reason = malicious_benign;
  evidence = none;
  evidence_withheld = false;
}

abbrev agreement : ContradictionDecision
agreement = record disagreement { left = 1; relation = agrees; reason = same_value }

-- An address that was seen a half-life ago, by two parties and in one copy.
abbrev address_report : ScoringInputs
address_report = record {
  subject = codes "claim-1";
  kind = some (codes "ipv4_address");
  source_reliability = some 80;
  information_credibility = some 60;
  corroboration = some (record { independent_parties = 2; discounted_observations = 1 });
  observed_at = some (record { seconds = 0; nanosecond = 0 });
  now = record { seconds = 14 * 86400; nanosecond = 0 };
  stance = reported;
  status = LifecycleStatus.active;
  contradictions = disagreement ∷ agreement ∷ [];
  analyst_override = none;
}

-- A better source, one more party, and the observation a day later.
abbrev better : ScoringInputs
better = record address_report {
  source_reliability = some 90;
  corroboration = some (record { independent_parties = 3; discounted_observations = 4 });
  observed_at = some (record { seconds = 86400; nanosecond = 0 });
}

default_policy-IsPolicy : IsPolicy default_policy
default_policy-IsPolicy = record {
  source_reliability = omega arith;
  information_credibility = omega arith;
  corroboration = omega arith;
  recency = omega arith;
  stance = omega arith;
}

assess-IsFigure_example :
    IsFigure
      (total_of (components_of default_policy address_report))
      (weight_of (components_of default_policy address_report))
      (owed default_policy address_report)
      (assess default_policy address_report).derived
assess-IsFigure_example =
    assess-IsFigure default_policy address_report default_policy-IsPolicy (omega arith, omega arith)

better-NoWorse : NoWorse default_policy address_report better
unfolding age_in_days
better-NoWorse = record {
  reliability = omega arith;
  credibility = omega arith;
  parties = omega arith;
  kind = refl;
  observed = omega arith;
  stance = refl;
  owed = omega arith;
}

assess_mono_example :
    (assess default_policy address_report).derived.overall
    ≤ (assess default_policy better).derived.overall
assess_mono_example =
    assess_mono default_policy (omega arith) address_report better default_policy-IsPolicy
      (omega arith, omega arith) (omega arith, omega arith) better-NoWorse

assess_order_example :
    ((assess default_policy
        (record address_report { contradictions = agreement ∷ disagreement ∷ [] })).derived
      ≡ (assess default_policy address_report).derived)
    × ((assess default_policy
          (record address_report { contradictions = agreement ∷ disagreement ∷ [] })).penalties
        ≡ (assess default_policy address_report).penalties)
    × Perm (agreement ∷ disagreement ∷ []) (assess default_policy address_report).contradictions
    × Sorted sorts_before (assess default_policy address_report).contradictions
assess_order_example =
    assess_order default_policy address_report (agreement ∷ disagreement ∷ [])
      (Perm.swap agreement disagreement [])

abbrev from_alice : Observation
from_alice = record {
  record_id = codes "r";
  source_object = 1;
  content_hash = 1;
  publisher = codes "a";
  record_hash = 7;
}

abbrev from_bob : Observation
from_bob = record from_alice { source_object = 2; publisher = codes "b" }

from_alice_seen : Memᴰ from_alice (prior_of (observe_all new (from_alice ∷ [])) (codes "r"))
unfolding observe_all observe new get insert text_eq
from_alice_seen = Memᴰ.head refl

copy_keeps_figure_example :
    (assess default_policy (
      corroborated_by
        (lineage_of (observe (observe_all new (from_alice ∷ [])) from_bob).0 (codes "r"))
        address_report)).derived
    ≡ (assess default_policy (
        corroborated_by
          (lineage_of (observe_all new (from_alice ∷ [])) (codes "r"))
          address_report)).derived
copy_keeps_figure_example =
    copy_keeps_figure default_policy address_report (observe_all new (from_alice ∷ [])) from_bob
      from_alice from_alice_seen refl

-- Every kind halves in a fortnight.
abbrev fortnight : ConfidencePolicy
fortnight = record default_policy {
  decay = record {
    revision = 1;
    default_profile = record { half_life_days = 14; floor = 5; never = false };
    profiles = [];
    anchors = [];
    dormant_at_or_below = 25;
    future_dating = rejected;
  };
}

report_figure : (assess fortnight address_report).derived.overall ≡ 39
unfolding assess policy_standing_after standing_after interpolated shifted profile_for get
    age_in_days place node_eq
report_figure = refl

assess-unknown_example :
    ((assess default_policy (unknown (codes "claim-2") address_report.now observed)).derived.overall
      ≡ 100)
    × ((assess default_policy
          (unknown (codes "claim-2") address_report.now observed)).derived.method
        ≡ ConfidenceMethod.derived)
    × (is_explained (assess default_policy (unknown (codes "claim-2") address_report.now observed))
        ≡ true)
assess-unknown_example =
    assess-unknown default_policy (codes "claim-2") address_report.now observed 100
      default_policy-IsPolicy refl (omega arith)
