-- ===== src/Graph/Confidence/Figure.antt =====
-- What figure `ConfidenceScorer::assess` of crates/brolga-graph/src/confidence.rs derives.
use Prim.Native.Nat.{min}
use brolga.Prelude.{
  u32_max, ℕ, zero, suc, Bool, true, false, ◌+◌, ◌-◌, ◌*◌, ◌/◌, ◌≤◌, ◌≡◌, refl, inl, inr, Option,
  none, some, List, [], ◌∷◌, ◌++◌, All, length, ltb, ◌==◌, if◌then◌else◌, Bool-cases, arith,
}
use brolga.Model.Confidence.{ConfidenceBreakdown, ConfidenceMethod, confidence_score, unexplained}
use brolga.Model.Status.{LifecycleStatus, is_current}
use brolga.Graph.Rank.Scores.{div_bound}
use brolga.Graph.Rank.Sorting.{sort_by}
use brolga.Graph.Contradiction.Review.{has_contradiction}
use brolga.Graph.Confidence.{ConfidencePolicy, ScoreComponent, stance_score}
use brolga.Graph.Confidence.Scorer.{
  penalties_of, deduction_from, derived_of, assess, sorts_before, withdrawal_reason,
  contradiction_penalties, withdrawal_penalties,
}
use brolga.Graph.Confidence.Assessment.{ScoringInputs}
use brolga.Graph.Confidence.Components.{
  score_of, components_of, pushed, reliability_component, credibility_component,
  corroboration_component, recency_component, stance_component,
}
use brolga.Graph.Confidence.Reviewed.{has_contradiction-sorted}
use brolga.Graph.Confidence.Mean.{total_of, weight_of, IsComponent, total_bound, weighted_mean_lem}

-- `u32` weights and scores that were checked.
pub record IsPolicy (p : ConfidencePolicy) : Type 0 where
  pub source_reliability : p.weights.source_reliability ≤ u32_max
  pub information_credibility : p.weights.information_credibility ≤ u32_max
  pub corroboration : p.weights.corroboration ≤ u32_max
  pub recency : p.weights.recency ≤ u32_max
  pub stance : p.weights.stance ≤ u32_max

-- Of what is known.
abbrev pub Known : {A : Type 0} → (A → Type 0) → Option A → Type 0
Known P none = Unit
Known P (some a) = P a

abbrev pub AreInputs : ScoringInputs → Type 0
AreInputs i =
    Known (λ n. n ≤ 100) i.source_reliability × Known (λ n. n ≤ 100) i.information_credibility

pub score_of_lem : (value : ℕ) → score_of value ≡ min value 100
unfolding score_of confidence_score
score_of_lem value = let small : ltb 100 (min value 100) ≡ false = ground arith in rw small refl

-- At most `n` components, with scores and weights of their types.
abbrev pub Few : ℕ → List ScoreComponent → Type 0
Few n cs = All IsComponent cs × (length cs ≤ n)

Few-append : (m n : ℕ) (xs ys : List ScoreComponent) → Few m xs → Few n ys → Few (m + n) (xs ++ ys)
Few-append m n [] ys h k = (k.0, omega (arith, k.1))
Few-append (suc m) n (x ∷ xs) ys ((c, h), few) k =
    let rest = Few-append m n xs ys (h, omega (arith, few)) k in
    ((c, rest.0), omega (arith, rest.1))
Few-append zero n (x ∷ xs) ys ((c, h), few) k = absurd (omega (arith, few))

Few-pushed :
    {A : Type 0} (f : A → ScoreComponent) (P : A → Type 0) (o : Option A)
    → ((a : A) → P a → IsComponent (f a))
    → Known P o
    → Few 1 (pushed f o)
Few-pushed f P none h k = (tt, omega arith)
Few-pushed f P (some a) h k = ((h a k, tt), omega arith)

Few-clamped :
    {A : Type 0} (f : A → ScoreComponent) (o : Option A)
    → ((a : A) → IsComponent (f a))
    → Few 1 (pushed f o)
Few-clamped f none h = (tt, omega arith)
Few-clamped f (some a) h = ((h a, tt), omega arith)

score_of_bound : (value : ℕ) → score_of value ≤ 100
score_of_bound value = rw (score_of_lem value) (omega arith)

module _ (p : ConfidencePolicy) (valid : IsPolicy p) where
  pub components_of-Few : (i : ScoringInputs) → AreInputs i → Few 5 (components_of p i)
  unfolding components_of
  components_of-Few i (r, k) =
      Few-append 4 1 _ _
        (Few-append 3 1 _ _
          (Few-append 2 1 _ _
            (Few-append 1 1 _ _
              (Few-pushed (reliability_component p) (λ n. n ≤ 100) i.source_reliability
                (λ n h. (h, valid.source_reliability)) r)
              (Few-pushed (credibility_component p) (λ n. n ≤ 100) i.information_credibility
                (λ n h. (h, valid.information_credibility)) k))
            (Few-clamped (corroboration_component p) i.corroboration
              (λ c. (score_of_bound _, valid.corroboration))))
          (Few-clamped (recency_component p i.kind i.now) i.observed_at
            (λ t. (score_of_bound _, valid.recency))))
        (Few-clamped (stance_component p i.stance) (stance_score p i.stance)
          (λ n. (score_of_bound _, valid.stance)))

-- What the policy deducts: for a contradiction, and for a claim that is not current.
abbrev pub owed : ConfidencePolicy → ScoringInputs → ℕ
owed p i =
    (if has_contradiction i.contradictions then p.contradiction_penalty else 0)
    + (if is_current i.status then 0 else p.withdrawn_penalty)

-- The figure from sums of scores and weights, less a deduction.
abbrev pub IsFigure : (total weight deduction : ℕ) → ConfidenceBreakdown → Type 0
IsFigure total weight deduction b =
    (b.overall ≡ (if weight == 0 then 0 else total / weight - deduction))
    × (b.method ≡ (if weight == 0 then ConfidenceMethod.unknown else ConfidenceMethod.derived))
    × (b.overall ≤ 100)

module _ (p : ConfidencePolicy) where
  pub deduction-owed :
      (i : ScoringInputs)
      → deduction_from 0 (penalties_of p (sort_by sorts_before i.contradictions) i.status)
        ≡ min 255 (owed p i)
  unfolding deduction_from penalties_of is_current
  deduction-owed i =
      rw (← has_contradiction-sorted i.contradictions)
        (go (has_contradiction i.contradictions) i.status)
    where
      go :
          (b : Bool) (s : LifecycleStatus)
          → deduction_from 0
              (contradiction_penalties p b ++ withdrawal_penalties p (withdrawal_reason s))
            ≡ min 255 (
                (if b then p.contradiction_penalty else 0)
                + (if is_current s then 0 else p.withdrawn_penalty))
      go true LifecycleStatus.active = omega arith
      go true LifecycleStatus.revoked = omega arith
      go true LifecycleStatus.superseded = omega arith
      go true LifecycleStatus.expired = omega arith
      go true LifecycleStatus.deprecated = omega arith
      go false LifecycleStatus.active = omega arith
      go false LifecycleStatus.revoked = omega arith
      go false LifecycleStatus.superseded = omega arith
      go false LifecycleStatus.expired = omega arith
      go false LifecycleStatus.deprecated = omega arith

  derived_of-IsFigure :
      (r k : Option ℕ) (cs : List ScoreComponent) (total weight deduction : ℕ)
      → total ≤ 100 * weight
      → IsFigure total weight deduction (
          derived_of p r k cs
            (if weight == 0 then none else some (total / weight))
            (min 255 deduction))
  unfolding derived_of unexplained
  derived_of-IsFigure r k cs total weight deduction h = elim (Bool-cases (weight == 0)) [
    | inl q ↦ rw q (refl, refl, omega arith)
    | inr q ↦
        let small = div_bound total weight 100 (ground (arith, q)) h in
        rw (q, score_of_lem (total / weight - min 255 deduction))
          (omega (arith, small), refl, omega arith)
  ]

  -- With scores that are percentages and weights that are `u32`s, the derived figure is the weighted
  -- mean of the components that are known, rounded down, less what the policy deducts for a
  -- contradiction and for a claim that is not current, and its method says that it was derived. Where
  -- no component has weight it is nought, by an unknown method. It is a percentage.
  pub assess-IsFigure :
      (i : ScoringInputs)
      → IsPolicy p
      → AreInputs i
      → IsFigure
          (total_of (components_of p i))
          (weight_of (components_of p i))
          (owed p i)
          (assess p i).derived
  unfolding assess
  assess-IsFigure i valid inputs =
      let cs = components_of p i in
      let few = components_of-Few p valid i inputs in
      rw (weighted_mean_lem cs few.0 few.1, deduction-owed i)
        (derived_of-IsFigure i.source_reliability i.information_credibility cs (total_of cs)
          (weight_of cs) (owed p i) (total_bound cs few.0))
