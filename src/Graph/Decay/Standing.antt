-- ===== src/Graph/Decay/Standing.antt =====
-- What an evaluation by crates/brolga-graph/src/decay.rs may answer.
use brolga.Prelude.{
  ℕ, ◌*◌, ◌/◌, ◌≤◌, ◌≡◌, ◌≢◌, refl, inl, inr, ◌↔◌, Bool, true, false, ◌||◌, Option, some, none, leb,
  if◌then◌else◌, arith, Bool-cases,
}
use brolga.Model.Status as Status
use brolga.Model.Status.{LifecycleStatus}
use brolga.Graph.Decay.{DecayProfile, standing_after, interpolated}
use brolga.Model.Temporal.{is_expired_at}
use brolga.Graph.Decay.Policy.{DecayPolicy, temporal_state}
use brolga.Graph.Decay.Evaluator.{
  DecayState, undated, live, dormant, exempted, revoked, expired, superseded, DecayInputs, Anchored,
  anchor_from, is_expired_status, aged, decide_current, decide, ranking_input, evaluate,
  profile_of_inputs,
}

-- The figure that ranking uses is no more than what the source asserted, and not nought unless that is.
pub ranking_input-bounds :
    (asserted standing ranking : ℕ)
    → asserted ≤ 100
    → standing ≤ 100
    → ranking_input (some asserted) (some standing) ≡ some ranking
    → (ranking ≤ asserted) × ((ranking ≡ 0) ↔ (asserted ≡ 0))
unfolding ranking_input
ranking_input-bounds asserted standing ranking h s e =
    let product : asserted * standing ≤ asserted * 100 = grind (arith, s) in
    let scaled : asserted * standing / 100 ≤ asserted = omega (arith, product) in
    grind (arith, e, scaled)

standing_after-bounds :
    (p : DecayProfile) (age : ℕ)
    → p.floor ≤ 100
    → (p.floor ≤ standing_after p age) × (standing_after p age ≤ 100)
unfolding standing_after interpolated
standing_after-bounds p age h = elim (Bool-cases p.never) [
  | inl q ↦ rw q (h, omega arith)
  | inr q ↦ rw q (omega arith, omega arith)
]

-- A standing agrees with its state, and lies between the floor and 100.
abbrev Stands : ℕ → DecayState × Option ℕ → Type 0
Stands floor (state, none) = state ≡ undated
Stands floor (undated, some s) = ⊥
Stands floor (state, some s) = (floor ≤ s) × (s ≤ 100)

aged-Stands :
    (p : DecayPolicy) (profile : DecayProfile) (o : Option Anchored)
    → profile.floor ≤ 100
    → Stands profile.floor (aged p profile o)
aged-Stands p profile none h = refl
aged-Stands p profile (some a) h =
    elim (Bool-cases (leb (standing_after profile a.age) p.dormant_at_or_below)) [
      | inl q ↦ rw q (standing_after-bounds profile a.age h)
      | inr q ↦ rw q (standing_after-bounds profile a.age h)
    ]

Stands-if :
    (floor : ℕ) (c : Bool) (x y : DecayState × Option ℕ)
    → Stands floor x
    → Stands floor y
    → Stands floor (if c then x else y)
Stands-if floor true x y h k = h
Stands-if floor false x y h k = k

decide_current-Stands :
    (p : DecayPolicy) (i : DecayInputs) (profile : DecayProfile) (o : Option Anchored)
    → profile.floor ≤ 100
    → Stands profile.floor (decide_current p i profile o)
unfolding decide_current
decide_current-Stands p i profile o h =
    elim (Bool-cases
      (is_expired_status i.status || is_expired_at (temporal_state i.timeline) i.now)) [
        | inl q ↦ rw q (omega arith, h)
        | inr q ↦ rw q (
            Stands-if profile.floor profile.never (exempted, some 100) (aged p profile o)
              (h, omega arith) (aged-Stands p profile o h))
      ]

decide-Stands :
    (p : DecayPolicy) (i : DecayInputs) (status : LifecycleStatus) (profile : DecayProfile)
    (o : Option Anchored)
    → profile.floor ≤ 100
    → Stands profile.floor (decide p i status profile o)
unfolding decide
decide-Stands p i Status.revoked profile o h = (omega arith, h)
decide-Stands p i Status.superseded profile o h = (omega arith, h)
decide-Stands p i Status.active profile o h = decide_current-Stands p i profile o h
decide-Stands p i Status.expired profile o h = decide_current-Stands p i profile o h
decide-Stands p i Status.deprecated profile o h = decide_current-Stands p i profile o h

Stands-some :
    (floor n : ℕ) (state : DecayState)
    → Stands floor (state, some n)
    → (state ≢ undated) × (floor ≤ n) × (n ≤ 100)
Stands-some floor n undated h = absurd h
Stands-some floor n live (a, b) = (λ e. cc, a, b)
Stands-some floor n dormant (a, b) = (λ e. cc, a, b)
Stands-some floor n exempted (a, b) = (λ e. cc, a, b)
Stands-some floor n revoked (a, b) = (λ e. cc, a, b)
Stands-some floor n expired (a, b) = (λ e. cc, a, b)
Stands-some floor n superseded (a, b) = (λ e. cc, a, b)

Stands-split :
    (floor : ℕ) (d : DecayState × Option ℕ)
    → Stands floor d
    → ((d.1 ≡ none) ↔ (d.0 ≡ undated)) × ((s : ℕ) → d.1 ≡ some s → (floor ≤ s) × (s ≤ 100))
Stands-split floor (state, none) h = ((λ e. h, λ e. refl), λ s e. absurd (ground arith))
Stands-split floor (state, some n) h =
    let (dated, low, high) = Stands-some floor n state h in
    ((λ e. absurd (ground arith), λ e. absurd (dated e)), λ s e. ground (arith, e, low, high))

-- Where the floor of the profile is at most 100, an evaluation gives no standing exactly when the
-- record is undated, and else one from the floor to 100: age alone never takes it to nought.
pub evaluate-standing :
    (p : DecayPolicy) (i : DecayInputs)
    → (evaluate p i).floor ≤ 100
    → (((evaluate p i).standing ≡ none) ↔ ((evaluate p i).state ≡ undated))
      × ((s : ℕ) → (evaluate p i).standing ≡ some s → ((evaluate p i).floor ≤ s) × (s ≤ 100))
unfolding evaluate
evaluate-standing p i h =
    let profile = profile_of_inputs p i in
    let o = anchor_from p i.timeline i.now p.anchors in
    Stands-split profile.floor (decide p i i.status profile o)
      (decide-Stands p i i.status profile o h)
