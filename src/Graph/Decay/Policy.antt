-- ===== src/Graph/Decay/Policy.antt =====
-- crates/brolga-graph/src/decay.rs: `DecayPolicy`, and the instants of a record that it is applied to.
-- The digest of a policy is a hash and is left out.
use brolga.Model.Temporal.{Timestamp, TemporalState}
use brolga.Prelude.{
  ℕ, ◌-◌, ◌/◌, ◌^◌, Bool, true, false, Option, some, none, List, [], ◌∷◌, Text, codes,
}
use Prim.Native.Nat.{min}
use brolga.Prelude.TextMap.{TextMap, get, insert}
use brolga.Graph.Decay.{DecayProfile, half_life, never, standing_after}

pub data DecayAnchor : Type 0 where
  observed last_seen published modified created first_seen : DecayAnchor

abbrev pub all_anchors : List DecayAnchor
all_anchors = observed ∷ last_seen ∷ published ∷ modified ∷ created ∷ first_seen ∷ []

pub data FutureDating : Type 0 where
  rejected accepted : FutureDating

abbrev pub is_rejected_dating : FutureDating → Bool
is_rejected_dating rejected = true
is_rejected_dating accepted = false

pub record DecayPolicy : Type 0 where
  pub revision : ℕ
  pub default_profile : DecayProfile
  pub profiles : TextMap DecayProfile
  pub anchors : List DecayAnchor
  pub dormant_at_or_below : ℕ
  pub future_dating : FutureDating

-- `DecayPolicy::defaults`, with the entries of the map in the order of their keys.
abbrev pub defaults : DecayPolicy
unfolding half_life never
defaults = record {
  revision = 1;
  default_profile = half_life 90 10;
  profiles =
      (codes "autonomous_system_number", half_life 365 20)
      ∷ (codes "domain_name", half_life 45 10)
      ∷ (codes "email_address", half_life 90 10)
      ∷ (codes "file_hash", never)
      ∷ (codes "ip_range", half_life 60 10)
      ∷ (codes "ipv4_address", half_life 14 5)
      ∷ (codes "ipv6_address", half_life 14 5)
      ∷ (codes "mutex_name", half_life 365 20)
      ∷ (codes "registry_key", half_life 365 20)
      ∷ (codes "url", half_life 30 5)
      ∷ [];
  anchors = all_anchors;
  dormant_at_or_below = 25;
  future_dating = rejected;
}

unfoldable pub with_profile : Text → DecayProfile → DecayPolicy → DecayPolicy
with_profile kind profile p = record p { profiles = insert kind profile p.profiles }

unfoldable pub with_never_decay : Text → DecayPolicy → DecayPolicy
unfolding with_profile never
with_never_decay kind p = with_profile kind never p

unfoldable pub with_anchors : List DecayAnchor → DecayPolicy → DecayPolicy
with_anchors [] p = p
with_anchors (a ∷ anchors) p = record p { anchors = a ∷ anchors }

unfoldable pub with_dormant_at_or_below : ℕ → DecayPolicy → DecayPolicy
with_dormant_at_or_below standing p = record p { dormant_at_or_below = min standing 100 }

abbrev unwrap_or : {A : Type 0} → Option A → A → A
unwrap_or none d = d
unwrap_or (some a) d = a

abbrev profile_of : DecayPolicy → Option Text → Option DecayProfile
profile_of p none = none
profile_of p (some kind) = get kind p.profiles

unfoldable pub profile_for : DecayPolicy → Option Text → DecayProfile
unfolding get
profile_for p kind = unwrap_or (profile_of p kind) p.default_profile

-- `DecayPolicy::standing_after`
unfoldable pub policy_standing_after : DecayPolicy → Option Text → ℕ → ℕ
policy_standing_after p kind age = standing_after (profile_for p kind) age

pub record SourceInstant : Type 0 where
  pub canonical : Timestamp
  pub original : Option Text

pub record RecordTimeline : Type 0 where
  pub created_at : Option SourceInstant
  pub modified_at : Option SourceInstant
  pub published_at : Option SourceInstant
  pub observed_at : Option SourceInstant
  pub first_seen_at : Option SourceInstant
  pub last_seen_at : Option SourceInstant
  pub valid_from : Option SourceInstant
  pub valid_until : Option SourceInstant

unfoldable pub instant : RecordTimeline → DecayAnchor → Option SourceInstant
instant t observed = t.observed_at
instant t last_seen = t.last_seen_at
instant t published = t.published_at
instant t modified = t.modified_at
instant t created = t.created_at
instant t first_seen = t.first_seen_at

abbrev canonical_of : Option SourceInstant → Option Timestamp
canonical_of none = none
canonical_of (some i) = some i.canonical

abbrev from_canonical : Option Timestamp → Option SourceInstant
from_canonical none = none
from_canonical (some at_instant) = some (record { canonical = at_instant; original = none })

unfoldable pub temporal_state : RecordTimeline → TemporalState
temporal_state t = record {
  first_seen = canonical_of t.first_seen_at;
  last_seen = canonical_of t.last_seen_at;
  valid_from = canonical_of t.valid_from;
  valid_until = canonical_of t.valid_until;
}

unfoldable pub from_temporal : TemporalState → RecordTimeline
from_temporal t = record {
  created_at = none;
  modified_at = none;
  published_at = none;
  observed_at = none;
  first_seen_at = from_canonical t.first_seen;
  last_seen_at = from_canonical t.last_seen;
  valid_from = from_canonical t.valid_from;
  valid_until = from_canonical t.valid_until;
}

abbrev pub seconds_per_day : ℕ
seconds_per_day = 86400

unfoldable pub age_in_days : Timestamp → Timestamp → ℕ
age_in_days since now = min (2 ^ 32 - 1) ((now.seconds - since.seconds) / seconds_per_day)
