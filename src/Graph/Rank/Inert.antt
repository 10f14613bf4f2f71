-- ===== src/Graph/Rank/Inert.antt =====
-- The scores of crates/brolga-graph/src/rank.rs under weights that are all zero.
use brolga.Prelude.{◌≡◌, refl, true, inl, inr, List, [], ◌∷◌, ◌==◌, Bool-cases, arith}
use brolga.Graph.Rank.{
  Factor, factors, FactorWeights, weight, weigh, weigh_nothing, is_inert, score_of, Candidate,
}

weigh-nothing :
    (c : Candidate) (ws : FactorWeights) (fs : List Factor)
    → weigh_nothing ws fs ≡ true
    → weigh c ws fs 0 0 ≡ (0, 0)
unfolding weigh
weigh-nothing c ws [] h = refl
weigh-nothing c ws (f ∷ fs) h = elim (Bool-cases (weight ws f == 0)) [
  | inl q ↦ rw q (weigh-nothing c ws fs (ground (arith, h)))
  | inr q ↦ absurd (ground (arith, h, q))
]

-- A candidate scores nothing where nothing counts.
pub score_of-inert : (c : Candidate) (ws : FactorWeights) → is_inert ws ≡ true → score_of c ws ≡ 0
unfolding is_inert score_of
score_of-inert c ws h = rw (weigh-nothing c ws factors h) refl
