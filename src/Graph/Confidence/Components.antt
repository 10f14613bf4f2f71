-- ===== src/Graph/Confidence/Components.antt =====
-- crates/brolga-graph/src/confidence.rs: the components that `ConfidenceScorer::assess` pushes.
use Prim.Native.Nat.{min}
use brolga.Prelude.{ℕ, Option, none, some, List, [], ◌∷◌, ◌++◌, Text, if◌then◌else◌}
use brolga.Prelude.Results.{Result, ok, err}
use brolga.Model.Confidence.{ConfidenceOutOfRange, confidence_score, max_score}
use brolga.Model.Temporal.{Timestamp}
use brolga.Graph.Decay.Policy.{profile_for, age_in_days}
use brolga.Graph.Contradiction.{ClaimStance}
use brolga.Graph.Confidence.{
  source_reliability, information_credibility, from_parties, recency, stance, ConfidencePolicy,
  corroboration_score, recency_score, stance_score, Corroboration, discounted_anything,
  track_record, report_credibility, judged_independent, copies_discounted, exempt_from_decay,
  on_the_decay_curve, how_held, counted, aged, held, ScoreComponent,
}
use brolga.Graph.Confidence.Assessment.{ScoringInputs}

abbrev score_or_max : Result ConfidenceOutOfRange ℕ → ℕ
score_or_max (ok score) = score
score_or_max (err e) = max_score

unfoldable pub score_of : ℕ → ℕ
unfolding confidence_score
score_of value = score_or_max (confidence_score (min value 100))

-- What `if let Some(…)` pushes.
abbrev pub pushed : {A : Type 0} → (A → ScoreComponent) → Option A → List ScoreComponent
pushed f none = []
pushed f (some a) = f a ∷ []

module _ (p : ConfidencePolicy) where
  abbrev pub reliability_component : ℕ → ScoreComponent
  reliability_component reliability = record {
    component = source_reliability;
    score = reliability;
    weight = p.weights.source_reliability;
    reason = track_record;
    evidence = none;
  }

  abbrev pub credibility_component : ℕ → ScoreComponent
  credibility_component credibility = record {
    component = information_credibility;
    score = credibility;
    weight = p.weights.information_credibility;
    reason = report_credibility;
    evidence = none;
  }

  abbrev pub corroboration_component : Corroboration → ScoreComponent
  corroboration_component c = record {
    component = from_parties;
    score = score_of (corroboration_score p c.independent_parties);
    weight = p.weights.corroboration;
    reason = if discounted_anything c then copies_discounted else judged_independent;
    evidence = some (counted c.independent_parties c.discounted_observations);
  }

  abbrev pub recency_component : Option Text → Timestamp → Timestamp → ScoreComponent
  recency_component kind now observed_at =
      let age = age_in_days observed_at now in
      let profile = profile_for p.decay kind in
      record {
        component = recency;
        score = score_of (recency_score p kind age);
        weight = p.weights.recency;
        reason = if profile.never then exempt_from_decay else on_the_decay_curve;
        evidence = some (aged age profile.half_life_days profile.floor);
      }

  abbrev pub stance_component : ClaimStance → ℕ → ScoreComponent
  stance_component s score = record {
    component = stance;
    score = score_of score;
    weight = p.weights.stance;
    reason = how_held;
    evidence = some (held s);
  }

  unfoldable pub components_of : ScoringInputs → List ScoreComponent
  unfolding score_of corroboration_score recency_score
  components_of i =
      pushed reliability_component i.source_reliability
      ++ pushed credibility_component i.information_credibility
      ++ pushed corroboration_component i.corroboration
      ++ pushed (recency_component i.kind i.now) i.observed_at
      ++ pushed (stance_component i.stance) (stance_score p i.stance)
