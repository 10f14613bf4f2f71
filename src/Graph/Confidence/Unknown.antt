-- ===== src/Graph/Confidence/Unknown.antt =====
-- What `ConfidenceScorer::assess` of crates/brolga-graph/src/confidence.rs makes of inputs of which
-- only the stance is known.
use Prim.Native.Nat.{min}
use native.Mathlib.Nat.{mul-div_cancel}
use brolga.Prelude.{
  ℕ, ◌≤◌, ◌*◌, ◌/◌, ◌+◌, ◌≡◌, refl, ◌∙◌, subst, [], ◌∷◌, true, some, Text, ◌==◌, false, arith,
}
use brolga.Model.Confidence.{ConfidenceMethod, ConfidenceBreakdown}
use brolga.Model.Temporal.{Timestamp}
use brolga.Model.Status.{is_current}
use brolga.Graph.Contradiction.{ClaimStance}
use brolga.Graph.Contradiction.Review.{has_contradiction}
use brolga.Graph.Confidence.{ConfidencePolicy, ScoreComponent, stance_score}
use brolga.Graph.Confidence.Scorer.{assess}
use brolga.Graph.Confidence.Assessment.{unknown, is_explained}
use brolga.Graph.Confidence.Components.{components_of, stance_component}
use brolga.Graph.Confidence.Mean.{total_of, weight_of}
use brolga.Graph.Confidence.Figure.{IsPolicy, IsFigure, score_of_lem, assess-IsFigure}

one-IsFigure :
    (c : ScoreComponent) (b : ConfidenceBreakdown)
    → 1 ≤ c.weight
    → IsFigure (total_of (c ∷ [])) (weight_of (c ∷ [])) 0 b
    → (b.overall ≡ c.score) × (b.method ≡ ConfidenceMethod.derived)
one-IsFigure c b w (figure, method, percent) =
    let heavy : (weight_of (c ∷ []) == 0) ≡ false = ground (arith, w) in
    let plain : c.score * c.weight + 0 ≡ c.score * c.weight = omega arith in
    let single : c.weight + 0 ≡ c.weight = omega arith in
    let mean : (c.score * c.weight + 0) / (c.weight + 0) ≡ c.score =
      rw (plain, single) (mul-div_cancel c.score w) in
    (figure ∙ rw heavy (omega (arith, mean)), method ∙ rw heavy refl)

-- With weights that are `u32`s, where the policy scores a stance and gives it weight, an assessment of inputs that know nothing else
-- is explained, and derives the whole of that score, but no more than 100.
pub assess-unknown :
    (p : ConfidencePolicy) (subject : Text) (now : Timestamp) (s : ClaimStance) (score : ℕ)
    → IsPolicy p
    → stance_score p s ≡ some score
    → 1 ≤ p.weights.stance
    → ((assess p (unknown subject now s)).derived.overall ≡ min score 100)
      × ((assess p (unknown subject now s)).derived.method ≡ ConfidenceMethod.derived)
      × (is_explained (assess p (unknown subject now s)) ≡ true)
unfolding components_of unknown is_explained has_contradiction is_current assess
assess-unknown p subject now s score valid e w =
    let i = unknown subject now s in
    let c = stance_component p s score in
    let only : components_of p i ≡ c ∷ [] = rw e refl in
    let figure =
      subst (λ cs. IsFigure (total_of cs) (weight_of cs) 0 (assess p i).derived) only
        (assess-IsFigure p i valid (tt, tt)) in
    let (overall, method) = one-IsFigure c (assess p i).derived w figure in
    (overall ∙ score_of_lem score, method, rw e refl)
