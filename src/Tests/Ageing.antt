-- ===== src/Tests/Ageing.antt =====
-- Runs of the evaluator and the ledger of crates/brolga-graph/src/decay.rs.
use brolga.Prelude.{
  ℕ, ◌+◌, ◌*◌, ◌≤◌, ◌≡◌, refl, ◌↔◌, false, none, some, List, [], ◌∷◌, ◌++◌, codes, text_eq, arith,
}
use brolga.Model.Status as Status
use brolga.Graph.Decay.{standing_after, interpolated, shifted}
use brolga.Prelude.TextMap.{get, insert}
use brolga.Model.Temporal.{is_expired_at}
use brolga.Graph.Decay.Policy.{
  SourceInstant, DecayPolicy, all_anchors, last_seen, first_seen, rejected, instant, profile_for,
  age_in_days, temporal_state,
}
use brolga.Graph.Decay.Evaluator.{
  DecayInputs, undated, live, evaluate, decide, decide_current, anchor_from, profile_of_inputs,
  ranking_input,
}
use brolga.Graph.Decay.Ledger.{
  seed_state, bounded, record_evaluation, with_policy, changed, DecayLedger, StateTransition,
  state_of, evaluate_all,
}
use brolga.Graph.Decay.Ledger.History.{follow, evaluate_all-follow}
use brolga.Graph.Decay.Standing.{evaluate-standing}
use brolga.Graph.Decay.Anchors.{Chosen, anchor_from-Chosen}

abbrev instant_of : ℕ → SourceInstant
instant_of days = record {
  canonical = record { seconds = days * 86400; nanosecond = 0 };
  original = none;
}

abbrev policy : DecayPolicy
policy = record {
  revision = 1;
  default_profile = record { half_life_days = 14; floor = 5; never = false };
  profiles = [];
  anchors = last_seen ∷ first_seen ∷ [];
  dormant_at_or_below = 25;
  future_dating = rejected;
}

-- Last seen a day after it is evaluated, and first seen on day 10.
abbrev inputs_on : ℕ → DecayInputs
inputs_on day = record {
  subject = codes "a";
  kind = none;
  timeline = record {
    created_at = none;
    modified_at = none;
    published_at = none;
    observed_at = none;
    first_seen_at = some (instant_of 10);
    last_seen_at = some (instant_of (day + 1));
    valid_from = none;
    valid_until = none;
  };
  status = Status.active;
  now = record { seconds = day * 86400; nanosecond = 0 };
  asserted = some 80;
  exempt = false;
}

-- The future date is passed over, and two half-lives leave a quarter.
aged_out : (evaluate policy (inputs_on 38)).standing ≡ some 25
unfolding evaluate temporal_state is_expired_at decide decide_current anchor_from profile_of_inputs
    profile_for instant age_in_days standing_after interpolated shifted
aged_out = refl

ranked : (evaluate policy (inputs_on 38)).ranking ≡ some 20
unfolding evaluate temporal_state is_expired_at decide decide_current anchor_from profile_of_inputs
    profile_for instant age_in_days standing_after interpolated shifted ranking_input
ranked = refl

low : (evaluate policy (inputs_on 38)).floor ≤ 100
unfolding evaluate profile_of_inputs profile_for
low = omega arith

evaluate-standing_example :
    (((evaluate policy (inputs_on 38)).standing ≡ none)
      ↔ ((evaluate policy (inputs_on 38)).state ≡ undated))
    × ((s : ℕ)
        → (evaluate policy (inputs_on 38)).standing ≡ some s
        → ((evaluate policy (inputs_on 38)).floor ≤ s) × (s ≤ 100))
evaluate-standing_example = evaluate-standing policy (inputs_on 38) low

abbrev ledger : DecayLedger
ledger = record { policy = policy; states = (codes "a", live) ∷ []; transitions = [] }

ledger_live : state_of ledger (codes "a") ≡ some live
unfolding state_of get text_eq
ledger_live = refl

evaluate_all-follow_example :
    (new : List StateTransition) × ((evaluate_all ledger
        (inputs_on 38 ∷ inputs_on 12 ∷ [])).transitions
      ≡ [] ++ new)
    × (state_of (evaluate_all ledger (inputs_on 38 ∷ inputs_on 12 ∷ [])) (codes "a")
        ≡ follow (codes "a") live new)
evaluate_all-follow_example =
    evaluate_all-follow ledger (inputs_on 38 ∷ inputs_on 12 ∷ []) (codes "a") live ledger_live

anchor_from-Chosen_example :
    Chosen policy
      (inputs_on 38).timeline
      (inputs_on 38).now
      all_anchors
      (anchor_from policy (inputs_on 38).timeline (inputs_on 38).now all_anchors)
anchor_from-Chosen_example =
    anchor_from-Chosen policy (inputs_on 38).timeline (inputs_on 38).now all_anchors

-- A subject with a control character: its seeded state is kept under another text, so that the
-- evaluation after it finds none and records no change.
abbrev lined : DecayInputs
lined = record (inputs_on 38) { subject = 10 ∷ [] }

seed_lost :
    (record_evaluation (seed_state (10 ∷ []) live (with_policy policy)) lined).transitions ≡ []
unfolding seed_state bounded record_evaluation evaluate changed get insert text_eq
seed_lost = refl
