-- ===== src/Graph/Confidence/Raised.antt =====
-- What raises the figure that `ConfidenceScorer::assess` of crates/brolga-graph/src/confidence.rs
-- derives.
use Prim.Native.Nat.{min}
use native.Mathlib.Nat.{mul-le-mul}
use brolga.Prelude.{
  ℕ, zero, suc, ◌-◌, ◌/◌, ◌≤◌, ◌≡◌, refl, subst, inl, inr, Option, none, some, List, [], ◌∷◌, ◌++◌,
  Text, length, ◌==◌, if◌then◌else◌, Bool-cases, arith,
}
use brolga.Model.Vocabulary.{nth}
use brolga.Graph.Decay.Falling.{standing_falls}
use brolga.Graph.Decay.Policy.{policy_standing_after, profile_for, age_in_days}
use brolga.Graph.Rank.Scores.{div_mono}
use brolga.Graph.Confidence.{
  ConfidencePolicy, ScoreComponent, or_zero, corroboration_score, recency_score, stance_score,
}
use brolga.Graph.Confidence.Scorer.{assess}
use brolga.Graph.Confidence.Assessment.{ScoringInputs}
use brolga.Graph.Confidence.Components.{
  components_of, score_of, pushed, reliability_component, credibility_component,
  corroboration_component, recency_component, stance_component,
}
use brolga.Graph.Confidence.Mean.{total_of, weight_of}
use brolga.Graph.Confidence.Figure.{IsPolicy, AreInputs, owed, score_of_lem, assess-IsFigure}

-- Both known and in this relation, or neither known.
abbrev pub BothKnown : {A : Type 0} → (A → A → Type 0) → Option A → Option A → Type 0
BothKnown R none none = Unit
BothKnown R none (some b) = ⊥
BothKnown R (some a) none = ⊥
BothKnown R (some a) (some b) = R a b

-- The second has the weights of the first, and scores no lower.
abbrev NoLower : List ScoreComponent → List ScoreComponent → Type 0
NoLower [] [] = Unit
NoLower [] (d ∷ ds) = ⊥
NoLower (c ∷ cs) [] = ⊥
NoLower (c ∷ cs) (d ∷ ds) = (c.weight ≡ d.weight) × (c.score ≤ d.score) × NoLower cs ds

NoLower-pushed :
    {A : Type 0} (R : A → A → Type 0) (f g : A → ScoreComponent) (x y : Option A)
    → ((a b : A) → R a b → ((f a).weight ≡ (g b).weight) × ((f a).score ≤ (g b).score))
    → BothKnown R x y
    → NoLower (pushed f x) (pushed g y)
NoLower-pushed R f g none none h k = tt
NoLower-pushed R f g none (some b) h k = absurd k
NoLower-pushed R f g (some a) none h k = absurd k
NoLower-pushed R f g (some a) (some b) h k = ((h a b k).0, (h a b k).1, tt)

NoLower-refl : (cs : List ScoreComponent) → NoLower cs cs
NoLower-refl [] = tt
NoLower-refl (c ∷ cs) = (refl, omega arith, NoLower-refl cs)

NoLower-append :
    (cs ds xs ys : List ScoreComponent)
    → NoLower cs ds
    → NoLower xs ys
    → NoLower (cs ++ xs) (ds ++ ys)
NoLower-append [] [] xs ys h k = k
NoLower-append [] (d ∷ ds) xs ys h k = absurd h
NoLower-append (c ∷ cs) [] xs ys h k = absurd h
NoLower-append (c ∷ cs) (d ∷ ds) xs ys (w, s, h) k = (w, s, NoLower-append cs ds xs ys h k)

NoLower-weight : (cs ds : List ScoreComponent) → NoLower cs ds → weight_of cs ≡ weight_of ds
NoLower-weight [] [] h = refl
NoLower-weight [] (d ∷ ds) h = absurd h
NoLower-weight (c ∷ cs) [] h = absurd h
NoLower-weight (c ∷ cs) (d ∷ ds) (w, s, h) = omega (arith, w, NoLower-weight cs ds h)

NoLower-total : (cs ds : List ScoreComponent) → NoLower cs ds → total_of cs ≤ total_of ds
NoLower-total [] [] h = omega arith
NoLower-total [] (d ∷ ds) h = absurd h
NoLower-total (c ∷ cs) [] h = absurd h
NoLower-total (c ∷ cs) (d ∷ ds) (w, s, h) =
    let weights : c.weight ≤ d.weight = omega (arith, w) in
    let term = mul-le-mul s weights in omega (arith, term, NoLower-total cs ds h)

-- No rung is below the one before it.
abbrev pub IsAscending : List ℕ → Type 0
IsAscending [] = Unit
IsAscending (a ∷ []) = Unit
IsAscending (a ∷ b ∷ ladder) = (a ≤ b) × IsAscending (b ∷ ladder)

nth_mono :
    (ladder : List ℕ) (m n : ℕ)
    → IsAscending ladder
    → m ≤ n
    → n ≤ length ladder - 1
    → or_zero (nth ladder m) ≤ or_zero (nth ladder n)
nth_mono [] m n h p q = omega arith
nth_mono (a ∷ ladder) zero zero h p q = omega arith
nth_mono (a ∷ ladder) (suc m) zero h p q = absurd (omega (arith, p))
nth_mono (a ∷ []) m (suc n) h p q = absurd (omega (arith, q))
nth_mono (a ∷ b ∷ ladder) zero (suc n) (le, h) p q =
    omega (arith, le, nth_mono (b ∷ ladder) zero n h (omega arith) (omega (arith, q)))
nth_mono (a ∷ b ∷ ladder) (suc m) (suc n) (le, h) p q =
    nth_mono (b ∷ ladder) m n h (omega (arith, p)) (omega (arith, q))

score_of_mono : (a b : ℕ) → a ≤ b → score_of a ≤ score_of b
score_of_mono a b h = rw (score_of_lem a, score_of_lem b) (omega arith)

-- Nothing that is known of the second is worse than what is known of the first.
pub record NoWorse (p : ConfidencePolicy) (i j : ScoringInputs) : Type 0 where
  pub reliability : BothKnown (λ a b. a ≤ b) i.source_reliability j.source_reliability
  pub credibility : BothKnown (λ a b. a ≤ b) i.information_credibility j.information_credibility
  pub parties :
      BothKnown
        (λ c d. c.independent_parties ≤ d.independent_parties)
        i.corroboration
        j.corroboration
  pub kind : i.kind ≡ j.kind
  pub observed :
      BothKnown (λ s t. age_in_days t j.now ≤ age_in_days s i.now) i.observed_at j.observed_at
  pub stance : i.stance ≡ j.stance
  pub owed : owed p j ≤ owed p i

figure_mono :
    (total total' weight weight' owed owed' : ℕ)
    → total ≤ total'
    → weight ≡ weight'
    → owed' ≤ owed
    → (if weight == 0 then 0 else total / weight - owed)
      ≤ (if weight' == 0 then 0 else total' / weight' - owed')
figure_mono total total' weight weight' owed owed' h e k =
    subst
      (λ w.
        (if weight == 0 then 0 else total / weight - owed)
        ≤ (if w == 0 then 0 else total' / w - owed'))
      e
      (elim (Bool-cases (weight == 0)) [
        | inl q ↦ rw q (omega arith)
        | inr q ↦ rw q (omega (arith, k, div_mono total total' weight (ground (arith, q)) h))
      ])

module _ (p : ConfidencePolicy) (ascending : IsAscending p.corroboration_ladder) where
  parties_mono : (a b : ℕ) → a ≤ b → corroboration_score p a ≤ corroboration_score p b
  unfolding corroboration_score
  parties_mono a b h =
      let last = length p.corroboration_ladder - 1 in
      nth_mono p.corroboration_ladder (min a last) (min b last) ascending (omega (arith, h))
        (omega arith)

  recency_mono :
      (kind : Option Text) (age younger : ℕ)
      → younger ≤ age
      → recency_score p kind age ≤ recency_score p kind younger
  unfolding recency_score policy_standing_after
  recency_mono kind age younger h = standing_falls (profile_for p.decay kind) younger age h

  components_of-NoLower :
      (i j : ScoringInputs) → NoWorse p i j → NoLower (components_of p i) (components_of p j)
  unfolding components_of
  components_of-NoLower i j h =
      NoLower-append _ _ _ _
        (NoLower-append _ _ _ _
          (NoLower-append _ _ _ _
            (NoLower-append _ _ _ _
              (NoLower-pushed (λ a b. a ≤ b) (reliability_component p) (reliability_component p)
                i.source_reliability j.source_reliability (λ a b h. (refl, h)) h.reliability)
              (NoLower-pushed (λ a b. a ≤ b) (credibility_component p) (credibility_component p)
                i.information_credibility j.information_credibility (λ a b h. (refl, h))
                h.credibility))
            (NoLower-pushed (λ c d. c.independent_parties ≤ d.independent_parties)
              (corroboration_component p) (corroboration_component p) i.corroboration
              j.corroboration
              (λ c d h. (
                refl,
                score_of_mono _ _ (parties_mono c.independent_parties d.independent_parties h),
              ))
              h.parties))
          (subst
            (λ k.
              NoLower (pushed (recency_component p i.kind i.now) i.observed_at)
                (pushed (recency_component p k j.now) j.observed_at))
            h.kind
            (NoLower-pushed (λ s t. age_in_days t j.now ≤ age_in_days s i.now)
              (recency_component p i.kind i.now) (recency_component p i.kind j.now) i.observed_at
              j.observed_at
              (λ s t h. (
                refl,
                score_of_mono _ _
                    (recency_mono i.kind (age_in_days s i.now) (age_in_days t j.now) h),
              ))
              h.observed)))
        (subst
          (λ s.
            NoLower (pushed (stance_component p i.stance) (stance_score p i.stance))
              (pushed (stance_component p s) (stance_score p s)))
          h.stance (NoLower-refl (pushed (stance_component p i.stance) (stance_score p i.stance))))

  -- With weights that are `u32`s, ratings that are percentages and a ladder that ascends, an
  -- assessment of inputs of which nothing known is worse (a rating, the number of independent parties,
  -- the age of the observation, what is deducted), the kind and the stance being the same, derives no
  -- lower figure.
  pub assess_mono :
      (i j : ScoringInputs)
      → IsPolicy p
      → AreInputs i
      → AreInputs j
      → NoWorse p i j
      → (assess p i).derived.overall ≤ (assess p j).derived.overall
  assess_mono i j valid first second h =
      let (low, _, _) = assess-IsFigure p i valid first in
      let (high, _, _) = assess-IsFigure p j valid second in
      let n = components_of-NoLower i j h in
      rw (low, high)
        (figure_mono _ _ _ _ _ _ (NoLower-total (components_of p i) (components_of p j) n)
          (NoLower-weight (components_of p i) (components_of p j) n) h.owed)
