-- ===== src/Graph/Decay/Anchors.antt =====
-- Which instant of a record crates/brolga-graph/src/decay.rs measures its age from.
use brolga.Prelude.{
  ℕ, ◌+◌, ◌*◌, ◌≤◌, ◌<◌, ◌≡◌, refl, ap, ◌⊎◌, inl, inr, ◌↔◌, false, ◌&&◌, Option, some, none, List,
  [], ◌∷◌, ◌++◌, All, u32_max, arith, Bool-cases, Option-cases,
}
use brolga.Model.Temporal.{Timestamp, before}
use brolga.Graph.Decay.Policy.{
  DecayPolicy, DecayAnchor, observed, last_seen, published, modified, created, first_seen,
  FutureDating, rejected, accepted, SourceInstant, RecordTimeline, instant, is_rejected_dating,
  age_in_days,
}
use brolga.Graph.Decay.Evaluator.{Anchored, anchor_from}

abbrev pub NotAfter : Timestamp → Timestamp → Type 0
NotAfter a b = (a.seconds < b.seconds) ⊎ ((a.seconds ≡ b.seconds) × (a.nanosecond ≤ b.nanosecond))

-- An instant that is not in the future is believed, and any other where the policy accepts it.
abbrev pub Believed : FutureDating → Timestamp → Timestamp → Type 0
Believed dating now at_instant = NotAfter at_instant now ⊎ (dating ≡ accepted)

-- The instant that the source gave the record for an anchor.
pub data Dates (t : RecordTimeline) : DecayAnchor → SourceInstant → Type 0 where
  is_observed : {i : SourceInstant} → t.observed_at ≡ some i → Dates t observed i
  is_last_seen : {i : SourceInstant} → t.last_seen_at ≡ some i → Dates t last_seen i
  is_published : {i : SourceInstant} → t.published_at ≡ some i → Dates t published i
  is_modified : {i : SourceInstant} → t.modified_at ≡ some i → Dates t modified i
  is_created : {i : SourceInstant} → t.created_at ≡ some i → Dates t created i
  is_first_seen : {i : SourceInstant} → t.first_seen_at ≡ some i → Dates t first_seen i

-- An anchor that the record has no instant for, or one that is not believed.
abbrev pub Passed : DecayPolicy → RecordTimeline → Timestamp → DecayAnchor → Type 0
Passed p t now a = ¬ ((i : SourceInstant) × Dates t a i × Believed p.future_dating now i.canonical)

-- The days of 86,400 seconds that are over since an instant, up to the largest `u32`; none where the
-- instant is later.
abbrev pub IsAge : Timestamp → Timestamp → ℕ → Type 0
IsAge since now age =
    ((now.seconds < since.seconds) × (age ≡ 0))
    ⊎ ((since.seconds + age * 86400 ≤ now.seconds)
        × ((now.seconds < since.seconds + (age + 1) * 86400) ⊎ (age ≡ u32_max)))

pub record IsAnchored (p : DecayPolicy) (t : RecordTimeline) (now : Timestamp)
    (anchors : List DecayAnchor) (o : Anchored) : Type 0 where
  pub earlier : List DecayAnchor
  pub later : List DecayAnchor
  pub split : anchors ≡ earlier ++ o.anchor ∷ later
  pub passed : All (Passed p t now) earlier
  pub source : SourceInstant
  pub found : Dates t o.anchor source
  pub same : o.at_instant ≡ source.canonical
  pub believed : Believed p.future_dating now o.at_instant
  pub aged : IsAge o.at_instant now o.age

abbrev pub Chosen :
    DecayPolicy → RecordTimeline → Timestamp → List DecayAnchor → Option Anchored → Type 0
Chosen p t now anchors none = All (Passed p t now) anchors
Chosen p t now anchors (some o) = IsAnchored p t now anchors o

instant-Dates :
    (t : RecordTimeline) (a : DecayAnchor) (i : SourceInstant)
    → (instant t a ≡ some i) ↔ Dates t a i
unfolding instant
instant-Dates t observed i = (λ h. is_observed h, λ d. elim d [ is_observed h ↦ h ])
instant-Dates t last_seen i = (λ h. is_last_seen h, λ d. elim d [ is_last_seen h ↦ h ])
instant-Dates t published i = (λ h. is_published h, λ d. elim d [ is_published h ↦ h ])
instant-Dates t modified i = (λ h. is_modified h, λ d. elim d [ is_modified h ↦ h ])
instant-Dates t created i = (λ h. is_created h, λ d. elim d [ is_created h ↦ h ])
instant-Dates t first_seen i = (λ h. is_first_seen h, λ d. elim d [ is_first_seen h ↦ h ])

Believed-iff :
    (dating : FutureDating) (now at_instant : Timestamp)
    → ((before now at_instant && is_rejected_dating dating) ≡ false)
      ↔ Believed dating now at_instant
Believed-iff rejected now at_instant =
    (λ h. inl (ground (arith, h)), λ h. elim h [ inl k ↦ ground (arith, k) | inr k ↦ cc ])
Believed-iff accepted now at_instant = (λ h. inr refl, λ h. ground arith)

age_in_days-IsAge : (since now : Timestamp) → IsAge since now (age_in_days since now)
unfolding age_in_days
age_in_days-IsAge since now = ground arith

Chosen-cons :
    (p : DecayPolicy) (t : RecordTimeline) (now : Timestamp) (a : DecayAnchor)
    (anchors : List DecayAnchor) (o : Option Anchored)
    → Passed p t now a
    → Chosen p t now anchors o
    → Chosen p t now (a ∷ anchors) o
Chosen-cons p t now a anchors none skip h = (skip, h)
Chosen-cons p t now a anchors (some o) skip h = record {
  earlier = a ∷ h.earlier;
  later = h.later;
  split = ap (λ l. a ∷ l) h.split;
  passed = (skip, h.passed);
  source = h.source;
  found = h.found;
  same = h.same;
  believed = h.believed;
  aged = h.aged;
}

-- The anchor is the first in the order of the policy that the record has a believed instant for, with
-- that instant and the whole days since; there is none where no anchor has such an instant. An instant
-- is believed if it is not later than the evaluation, or if the policy accepts future dates.
pub anchor_from-Chosen :
    (p : DecayPolicy) (t : RecordTimeline) (now : Timestamp) (anchors : List DecayAnchor)
    → Chosen p t now anchors (anchor_from p t now anchors)
unfolding anchor_from
anchor_from-Chosen p t now [] = tt
anchor_from-Chosen p t now (a ∷ anchors) =
    let rest = anchor_from-Chosen p t now anchors in
    let skip = Chosen-cons p t now a anchors (anchor_from p t now anchors) in
    elim (Option-cases (instant t a)) [
      | inl q ↦
          rw (anchor_from, q) (skip (λ (i, d, k). let e = (instant-Dates t a i).1 d in cc) rest)
      | inr (i, q) ↦
          let believed = Believed-iff p.future_dating now i.canonical in
          elim (Bool-cases (before now i.canonical && is_rejected_dating p.future_dating)) [
            | inl b ↦
                rw (anchor_from, q, b)
                  (skip
                    (λ (j, d, k).
                      let e = (instant-Dates t a j).1 d in
                      let same : i ≡ j = cc in
                      let no = (Believed-iff p.future_dating now j.canonical).1 k in cc)
                    rest)
            | inr b ↦
                rw (anchor_from, q, b)
                  (record {
                    earlier = [];
                    later = anchors;
                    split = refl;
                    passed = tt;
                    source = i;
                    found = (instant-Dates t a i).0 q;
                    same = refl;
                    believed = believed.0 b;
                    aged = age_in_days-IsAge i.canonical now;
                  })
          ]
    ]
