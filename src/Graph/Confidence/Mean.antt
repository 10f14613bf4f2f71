-- ===== src/Graph/Confidence/Mean.antt =====
-- The weighted mean of crates/brolga-graph/src/confidence.rs against its sums without the limits of
-- the words, and what a higher component does to it.
use native.Mathlib.Nat.{mul-le-mul_right}
use brolga.Prelude.{
  u32_max, ℕ, ◌+◌, ◌*◌, ◌/◌, ◌≤◌, ◌≡◌, refl, ap, ◌∙◌, inl, inr, none, some, List, [], ◌∷◌, All,
  length, ◌==◌, if◌then◌else◌, u64_max, saturating_add, saturating_mul, Bool-cases, arith,
}
use brolga.Graph.Rank.Scores.{pairs_eq, div_bound}
use brolga.Graph.Confidence.{ScoreComponent}
use brolga.Graph.Confidence.Scorer.{weigh_components, mean_of, weighted_mean}

abbrev pub total_of : List ScoreComponent → ℕ
total_of [] = 0
total_of (c ∷ cs) = c.score * c.weight + total_of cs

abbrev pub weight_of : List ScoreComponent → ℕ
weight_of [] = 0
weight_of (c ∷ cs) = c.weight + weight_of cs

-- A percentage, with a weight that is a `u32`.
abbrev pub IsComponent : ScoreComponent → Type 0
IsComponent c = (c.score ≤ 100) × (c.weight ≤ u32_max)

pub total_bound : (cs : List ScoreComponent) → All IsComponent cs → total_of cs ≤ 100 * weight_of cs
total_bound [] h = omega arith
total_bound (c ∷ cs) (h, rest) =
    let term = mul-le-mul_right c.weight h.0 in omega (arith, term, total_bound cs rest)

weight_bound : (cs : List ScoreComponent) → All IsComponent cs → weight_of cs ≤ length cs * u32_max
weight_bound [] h = omega arith
weight_bound (c ∷ cs) (h, rest) = omega (arith, h.1, weight_bound cs rest)

saturating_add_mul :
    (a v w : ℕ) → a + v * w ≤ u64_max → saturating_add a (saturating_mul v w) ≡ a + v * w
saturating_add_mul a v w h = ground arith

weigh_components_lem :
    (cs : List ScoreComponent) (weighted total : ℕ)
    → weighted + total_of cs ≤ u64_max
    → total + weight_of cs ≤ u64_max
    → weigh_components cs weighted total ≡ (weighted + total_of cs, total + weight_of cs)
unfolding weigh_components
weigh_components_lem [] weighted total h k = pairs_eq (omega arith) (omega arith)
weigh_components_lem (c ∷ cs) weighted total h k =
    let plain : saturating_add total c.weight ≡ total + c.weight = omega arith in
    rw (saturating_add_mul weighted c.score c.weight (omega arith), plain)
      (weigh_components_lem cs (weighted + c.score * c.weight) (total + c.weight) (omega arith)
          (omega arith)
        ∙ pairs_eq (omega arith) (omega arith))

-- The mean, rounded down, of at most five components, for which no sum comes near 64 bits.
pub weighted_mean_lem :
    (cs : List ScoreComponent)
    → All IsComponent cs
    → length cs ≤ 5
    → weighted_mean cs ≡ (if weight_of cs == 0 then none else some (total_of cs / weight_of cs))
unfolding weighted_mean
weighted_mean_lem cs h few =
    let t = total_bound cs h in
    let w = weight_bound cs h in
    ap mean_of (
      weigh_components_lem cs 0 0 (omega (arith, t, w, few)) (omega (arith, w, few))
      ∙ pairs_eq {x = total_of cs} {y = weight_of cs} (omega arith) (omega arith))
    ∙ whole (total_of cs) (weight_of cs) t
  where
    whole :
        (total weight : ℕ)
        → total ≤ 100 * weight
        → mean_of (total, weight) ≡ (if weight == 0 then none else some (total / weight))
    whole total weight t = elim (Bool-cases (weight == 0)) [
      | inl q ↦ rw q refl
      | inr q ↦
          let small = div_bound total weight 100 (ground (arith, q)) t in
          rw q (ground (arith, small))
    ]
