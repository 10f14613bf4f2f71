-- ===== src/Graph/Rank/Claims.antt =====
-- crates/brolga-graph/src/rank.rs, `candidate_from_claim` and `freshness`, over what they read of a
-- claim. Ages are of instants in order, and no sum comes near the limits of `i64`.
use brolga.Prelude.{
  ℕ, ◌-◌, ◌*◌, ◌/◌, ◌≤◌, ◌<◌, inl, inr, Bool, true, false, Option, none, some, List, [], ◌∷◌, Text,
  codes, leb, ◌==◌, if◌then◌else◌, saturating_mul, Bool-cases, arith,
}
use Prim.Native.Nat.{min}
use brolga.Model.Status.{LifecycleStatus, is_current}
use brolga.Model.Temporal.{Timestamp, TemporalState}
use brolga.Graph.Traverse.Edges.{NodeRef, entity, observable}
use brolga.Graph.Rank.{
  Factor, confidence, freshness, corroboration, quality, Candidate, new_candidate, with_factor,
  protect, factor_eq,
}
use brolga.Graph.Rank.Scores.{AreFactors, div_mono, div_bound}

-- What is read of a `Claim`: the overall confidence, and how many source objects it has.
pub record Claim : Type 0 where
  pub id : Text
  pub confidence : Option ℕ
  pub sources : ℕ
  pub status : LifecycleStatus
  pub temporal : TemporalState
  pub subject : NodeRef

abbrev first_of : Option Timestamp → Option Timestamp → Option Timestamp
first_of none b = b
first_of (some a) b = some a

abbrev byte_or_hundred : ℕ → ℕ
byte_or_hundred n = if leb n 255 then n else 100

abbrev pub fresh_of : ℕ → ℕ → ℕ → ℕ
fresh_of now seen horizon =
    if horizon == 0
    then 100
    else if leb now seen
    then 100
    else if leb horizon (now - seen)
    then 0
    else byte_or_hundred ((horizon - (now - seen)) * 100 / horizon)

abbrev seen_fresh : Option Timestamp → Timestamp → ℕ → ℕ
seen_fresh none now horizon_days = 50
seen_fresh (some seen) now horizon_days = fresh_of now.seconds seen.seconds (horizon_days * 86400)

unfoldable pub claim_freshness : TemporalState → Timestamp → ℕ → ℕ
claim_freshness t now horizon_days =
    seen_fresh (first_of t.last_seen (first_of t.first_seen t.valid_from)) now horizon_days

abbrev pub with_confidence : Option ℕ → Candidate → Candidate
with_confidence none c = c
with_confidence (some overall) c = with_factor confidence overall c

abbrev contains : List ℕ → ℕ → Bool
contains [] n = false
contains (m ∷ ms) n = let rest = contains ms n in if m == n then true else rest

abbrev pub protect_named : NodeRef → List ℕ → Candidate → Candidate
protect_named (entity n) exact c = c
protect_named (observable n) exact c =
    if contains exact n
    then protect (codes "the caller asked about this observable by name") c
    else c

unfoldable pub candidate_from_claim : Claim → Timestamp → ℕ → List ℕ → Candidate
unfolding claim_freshness is_current
candidate_from_claim claim now horizon_days exact_subjects =
    protect_named claim.subject exact_subjects (
      with_factor quality (if is_current claim.status then 100 else 25) (
        with_factor freshness (claim_freshness claim.temporal now horizon_days) (
          with_factor corroboration (min (byte_or_hundred (saturating_mul claim.sources 25)) 100)
            (with_confidence claim.confidence (new_candidate claim.id)))))

with_factor-AreFactors :
    (f : Factor) (v : ℕ) (c : Candidate) → AreFactors c → AreFactors (with_factor f v c)
with_factor-AreFactors f v c h g = elim (Bool-cases (factor_eq f g)) [
  | inl q ↦ rw q (omega arith)
  | inr q ↦ rw q (h g)
]

-- An earlier sight of a record is no fresher, wherever it lies from now and the horizon.
pub fresh_of_mono :
    (now earlier later horizon : ℕ)
    → earlier ≤ later
    → fresh_of now earlier horizon ≤ fresh_of now later horizon
fresh_of_mono now earlier later horizon h = elim (Bool-cases (horizon == 0)) [
  | inl q ↦ rw q (omega arith)
  | inr q ↦
      let p : 0 < horizon = ground (arith, q) in
      let old = (horizon - (now - earlier)) * 100 in
      let new = (horizon - (now - later)) * 100 in
      let old_bound = div_bound old horizon 100 p (omega arith) in
      let new_bound = div_bound new horizon 100 p (omega arith) in
      let below = div_mono old new horizon p (omega arith) in
      rw q (ground (arith, old_bound, new_bound, below))
]

nothing-AreFactors : (id : Text) → AreFactors (new_candidate id)
nothing-AreFactors id f = omega arith

with_confidence-AreFactors :
    (o : Option ℕ) (c : Candidate) → AreFactors c → AreFactors (with_confidence o c)
with_confidence-AreFactors none c h = h
with_confidence-AreFactors (some overall) c h = with_factor-AreFactors confidence overall c h

protect_named-AreFactors :
    (n : NodeRef) (exact : List ℕ) (c : Candidate)
    → AreFactors c
    → AreFactors (protect_named n exact c)
protect_named-AreFactors (entity n) exact c h = h
protect_named-AreFactors (observable n) exact c h = elim (Bool-cases (contains exact n)) [
  | inl q ↦ rw q h
  | inr q ↦ rw q h
]

-- The factors of the candidate made of any claim are percentages.
pub candidate_from_claim-AreFactors :
    (claim : Claim) (now : Timestamp) (horizon_days : ℕ) (exact : List ℕ)
    → AreFactors (candidate_from_claim claim now horizon_days exact)
unfolding candidate_from_claim
candidate_from_claim-AreFactors claim now horizon_days exact =
    let known = with_confidence claim.confidence (new_candidate claim.id) in
    let backed = min (byte_or_hundred (saturating_mul claim.sources 25)) 100 in
    let shared = with_factor corroboration backed known in
    let dated = with_factor freshness (claim_freshness claim.temporal now horizon_days) shared in
    let standing = if is_current claim.status then 100 else 25 in
    protect_named-AreFactors claim.subject exact (with_factor quality standing dated) (
      with_factor-AreFactors quality standing dated (
        with_factor-AreFactors freshness (claim_freshness claim.temporal now horizon_days) shared (
          with_factor-AreFactors corroboration backed known (
            with_confidence-AreFactors claim.confidence (new_candidate claim.id)
              (nothing-AreFactors claim.id)))))
