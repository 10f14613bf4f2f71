-- ===== src/Graph/Decay/Evaluator.antt =====
-- crates/brolga-graph/src/decay.rs, `DecayEvaluator`.
-- The texts of an assessment (its reason, its evidence and the instant as it was written) and the names and
-- digest of the algorithm are left out.
use Prim.Native.Nat.{min, max}
use brolga.Prelude.{
  ℕ, ◌*◌, ◌/◌, Bool, true, false, ◌&&◌, ◌||◌, Option, some, none, List, [], ◌∷◌, Text, ltb, leb,
  if◌then◌else◌,
}
use brolga.Model.Status as Status
use brolga.Model.Status.{LifecycleStatus}
use brolga.Graph.Decay.{DecayProfile, never, standing_after}
use brolga.Model.Temporal.{Timestamp, before, is_expired_at}
use brolga.Graph.Decay.Policy.{
  DecayAnchor, all_anchors, is_rejected_dating, DecayPolicy, profile_for, RecordTimeline, instant,
  age_in_days, temporal_state,
}

pub data DecayState : Type 0 where
  undated live dormant exempted revoked expired superseded : DecayState

unfoldable pub is_live : DecayState → Bool
is_live live = true
is_live exempted = true
is_live _ = false

unfoldable pub is_dated : DecayState → Bool
is_dated undated = false
is_dated _ = true

pub record DecayInputs : Type 0 where
  pub subject : Text
  pub kind : Option Text
  pub timeline : RecordTimeline
  pub status : LifecycleStatus
  pub now : Timestamp
  pub asserted : Option ℕ
  pub exempt : Bool

pub record Anchored : Type 0 where
  pub anchor : DecayAnchor
  pub at_instant : Timestamp
  pub age : ℕ

-- `DecayEvaluator::anchor`, over the anchors that are left.
unfoldable pub anchor_from :
    DecayPolicy → RecordTimeline → Timestamp → List DecayAnchor → Option Anchored
anchor_from p t now [] = none
anchor_from p t now (a ∷ anchors) =
    let rest = anchor_from p t now anchors in
    elim (instant t a) [
      | none ↦ rest
      | some i ↦
          if before now i.canonical && is_rejected_dating p.future_dating
          then rest
          else some
              (record { anchor = a; at_instant = i.canonical; age = age_in_days i.canonical now })
    ]

unfoldable pub any_instant_in_future : RecordTimeline → Timestamp → List DecayAnchor → Bool
any_instant_in_future t now [] = false
any_instant_in_future t now (a ∷ anchors) =
    let rest = any_instant_in_future t now anchors in
    elim (instant t a) [ none ↦ rest | some i ↦ before now i.canonical || rest ]

abbrev pub is_expired_status : LifecycleStatus → Bool
is_expired_status Status.expired = true
is_expired_status _ = false

-- What `decide` answers for a record that has not been withdrawn, replaced or run out.
abbrev pub aged : DecayPolicy → DecayProfile → Option Anchored → DecayState × Option ℕ
aged p profile none = (undated, none)
aged p profile (some a) =
    let standing = standing_after profile a.age in
    if leb standing p.dormant_at_or_below then (dormant, some standing) else (live, some standing)

unfoldable pub decide_current :
    DecayPolicy → DecayInputs → DecayProfile → Option Anchored → DecayState × Option ℕ
decide_current p i profile anchored =
    if is_expired_status i.status || is_expired_at (temporal_state i.timeline) i.now
    then (expired, some profile.floor)
    else if profile.never
    then (exempted, some 100)
    else aged p profile anchored

unfoldable pub decide :
    DecayPolicy
    → DecayInputs
    → LifecycleStatus
    → DecayProfile
    → Option Anchored
    → DecayState × Option ℕ
decide p i Status.revoked profile anchored = (revoked, some profile.floor)
decide p i Status.superseded profile anchored = (superseded, some profile.floor)
decide p i _ profile anchored = decide_current p i profile anchored

-- Of scores, which are at most 100.
unfoldable pub ranking_input : Option ℕ → Option ℕ → Option ℕ
ranking_input none standing = none
ranking_input (some asserted) none = none
ranking_input (some asserted) (some standing) =
    let scaled = asserted * standing / 100 in
    some (min (if ltb 0 asserted then max scaled 1 else 0) 100)

pub record DecayAssessment : Type 0 where
  pub subject : Text
  pub kind : Option Text
  pub state : DecayState
  pub anchored : Option Anchored
  pub standing : Option ℕ
  pub floor : ℕ
  pub half_life_days : Option ℕ
  pub asserted : Option ℕ
  pub ranking : Option ℕ
  pub future_dated : Bool
  pub policy_revision : ℕ

unfoldable pub profile_of_inputs : DecayPolicy → DecayInputs → DecayProfile
unfolding never
profile_of_inputs p i = if i.exempt then never else profile_for p i.kind

-- `DecayEvaluator::evaluate`
unfoldable pub evaluate : DecayPolicy → DecayInputs → DecayAssessment
evaluate p i =
    let profile = profile_of_inputs p i in
    let anchored = anchor_from p i.timeline i.now p.anchors in
    let (state, standing) = decide p i i.status profile anchored in
    record {
      subject = i.subject;
      kind = i.kind;
      state = state;
      anchored = anchored;
      standing = standing;
      floor = profile.floor;
      half_life_days = if profile.never then none else some profile.half_life_days;
      asserted = i.asserted;
      ranking = ranking_input i.asserted standing;
      future_dated = any_instant_in_future i.timeline i.now all_anchors;
      policy_revision = p.revision;
    }
