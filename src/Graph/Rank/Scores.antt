-- ===== src/Graph/Rank/Scores.antt =====
-- The scores of crates/brolga-graph/src/rank.rs.
use brolga.Prelude.{
  u32_max, ℕ, suc, ◌+◌, ◌*◌, ◌/◌, ◌≤◌, ◌<◌, ◌≡◌, refl, ap, ◌∙◌, inl, inr, true, List, [], ◌∷◌, leb,
  ◌==◌, if◌then◌else◌, Bool-cases, arith,
}
use native.Mathlib.Nat.{
  mul-le-mul_right, le_of_mul-le-mul_right, div-add-mod', mod-lt, lt_of_mul-lt-mul_right, suc-mul,
}
use brolga.Graph.Rank.{
  Factor, confidence, freshness, corroboration, novelty, quality, actionability, cost, factors,
  is_cost, FactorWeights, weight, Candidate, raw, value_of, u32_add, u32_mul, weigh, mean_of,
  score_of,
}

-- The sums of the loop without the words' limits.
abbrev total_of : Candidate → FactorWeights → List Factor → ℕ
total_of c ws [] = 0
total_of c ws (f ∷ fs) = value_of c f * weight ws f + total_of c ws fs

abbrev divisor_of : FactorWeights → List Factor → ℕ
divisor_of ws [] = 0
divisor_of ws (f ∷ fs) = weight ws f + divisor_of ws fs

pub pairs_eq : {a b x y : ℕ} → a ≡ x → b ≡ y → ◌≡◌ {A = ℕ × ℕ} (a, b) (x, y)
pairs_eq p q = cc

u32_add_lem : (a b : ℕ) → a + b ≤ u32_max → u32_add a b ≡ a + b
u32_add_lem a b h = ground arith

u32_add_mul : (a v w : ℕ) → a + v * w ≤ u32_max → u32_add a (u32_mul v w) ≡ a + v * w
u32_add_mul a v w h = ground arith

-- The loop adds up the weighted values and the weights.
weigh_lem :
    (c : Candidate) (ws : FactorWeights) (fs : List Factor) (total divisor : ℕ)
    → total + total_of c ws fs ≤ u32_max
    → divisor + divisor_of ws fs ≤ u32_max
    → weigh c ws fs total divisor ≡ (total + total_of c ws fs, divisor + divisor_of ws fs)
unfolding weigh
weigh_lem c ws [] total divisor t d = pairs_eq (omega arith) (omega arith)
weigh_lem c ws (f ∷ fs) total divisor t d =
    let v = value_of c f in
    let w = weight ws f in
    elim (Bool-cases (weight ws f == 0)) [
      | inl q ↦
          let zero_weight : w ≡ 0 = ground (arith, q) in
          let nothing = ap (λ (x : ℕ). v * x) zero_weight in
          rw q (
            weigh_lem c ws fs total divisor (omega (arith, nothing)) (omega arith)
            ∙ pairs_eq (omega (arith, nothing)) (omega (arith, zero_weight)))
      | inr q ↦
          rw (q, u32_add_mul total v w (omega arith), u32_add_lem divisor w (omega arith))
            (weigh_lem c ws fs (total + v * w) (divisor + w) (omega arith) (omega arith)
              ∙ pairs_eq (omega arith) (omega arith))
    ]

-- Factors and weights that are percentages, as the builders make them.
abbrev pub AreFactors : Candidate → Type 0
AreFactors c = (f : Factor) → raw c f ≤ 100

abbrev pub AreWeights : FactorWeights → Type 0
AreWeights ws = (f : Factor) → weight ws f ≤ 100

value_bound : (c : Candidate) (f : Factor) → raw c f ≤ 100 → value_of c f ≤ 100
value_bound c f h = ground arith

total_bound :
    (c : Candidate) (ws : FactorWeights) (fs : List Factor)
    → AreFactors c
    → total_of c ws fs ≤ 100 * divisor_of ws fs
total_bound c ws [] h = omega arith
total_bound c ws (f ∷ fs) h =
    let term = mul-le-mul_right (weight ws f) (value_bound c f (h f)) in
    omega (arith, term, total_bound c ws fs h)

divisor_bound : (ws : FactorWeights) → AreWeights ws → divisor_of ws factors ≤ 700
divisor_bound ws h = omega (
  arith,
  h confidence,
  h freshness,
  h corroboration,
  h novelty,
  h quality,
  h actionability,
  h cost,
)

pub div_bound : (n d k : ℕ) → 0 < d → n ≤ k * d → n / d ≤ k
div_bound n d k p h = le_of_mul-le-mul_right (omega (arith, div-add-mod' n d)) p

pub div_mono : (n m d : ℕ) → 0 < d → n ≤ m → n / d ≤ m / d
div_mono n m d p h =
    let below = mod-lt m p in
    let strict : n / d * d < suc (m / d) * d =
      omega (arith, div-add-mod' n d, div-add-mod' m d, below, suc-mul (m / d) d) in
    omega (arith, lt_of_mul-lt-mul_right d strict)

-- The weighted mean, rounded down, or 0 where no factor has weight.
unfoldable pub weighted_mean : Candidate → FactorWeights → ℕ
weighted_mean c ws =
    if divisor_of ws factors == 0 then 0 else total_of c ws factors / divisor_of ws factors

mean_of_lem :
    (total divisor : ℕ)
    → total ≤ 100 * divisor
    → mean_of (total, divisor) ≡ (if divisor == 0 then 0 else total / divisor)
mean_of_lem total divisor h = elim (Bool-cases (divisor == 0)) [
  | inl q ↦ rw q refl
  | inr q ↦
      let small = div_bound total divisor 100 (ground (arith, q)) h in
      let byte : leb (total / divisor) 255 ≡ true = ground (arith, small) in rw (q, byte) refl
]

weigh_all :
    (c : Candidate) (ws : FactorWeights)
    → AreWeights ws
    → AreFactors c
    → weigh c ws factors 0 0 ≡ (total_of c ws factors, divisor_of ws factors)
weigh_all c ws weighed h =
    let divisor = divisor_bound ws weighed in
    let total = total_bound c ws factors h in
    weigh_lem c ws factors 0 0 (omega (arith, total, divisor)) (omega (arith, divisor))
    ∙ pairs_eq (omega arith) (omega arith)

total_mono :
    (a b : Candidate) (ws : FactorWeights) (fs : List Factor)
    → ((f : Factor) → value_of a f ≤ value_of b f)
    → total_of a ws fs ≤ total_of b ws fs
total_mono a b ws [] h = omega arith
total_mono a b ws (f ∷ fs) h =
    omega (arith, mul-le-mul_right (weight ws f) (h f), total_mono a b ws fs h)

mean_bound :
    (total divisor : ℕ)
    → total ≤ 100 * divisor
    → (if divisor == 0 then 0 else total / divisor) ≤ 100
mean_bound total divisor h = elim (Bool-cases (divisor == 0)) [
  | inl q ↦ rw q (omega arith)
  | inr q ↦ rw q (div_bound total divisor 100 (ground (arith, q)) h)
]

mean_mono :
    (n m divisor : ℕ)
    → n ≤ m
    → (if divisor == 0 then 0 else n / divisor) ≤ (if divisor == 0 then 0 else m / divisor)
mean_mono n m divisor h = elim (Bool-cases (divisor == 0)) [
  | inl q ↦ rw q (omega arith)
  | inr q ↦ rw q (div_mono n m divisor (ground (arith, q)) h)
]

module _ (ws : FactorWeights) (weighed : AreWeights ws) where
  score_of_lem : (c : Candidate) → AreFactors c → score_of c ws ≡ weighted_mean c ws
  unfolding score_of weighted_mean
  score_of_lem c h =
      ap mean_of (weigh_all c ws weighed h)
      ∙ mean_of_lem (total_of c ws factors) (divisor_of ws factors) (total_bound c ws factors h)

  -- With factors and weights that are percentages, a score is their weighted mean, with cost counted
  -- from 100 down, and a percentage too.
  score_of-mean :
      (c : Candidate) → AreFactors c → (score_of c ws ≡ weighted_mean c ws) × (score_of c ws ≤ 100)
  unfolding weighted_mean
  score_of-mean c h = (
    score_of_lem c h,
    rw (score_of_lem c h)
        (mean_bound (total_of c ws factors) (divisor_of ws factors) (total_bound c ws factors h)),
  )

  value_mono :
      (a b : Candidate) (f : Factor)
      → (if is_cost f then raw b f ≤ raw a f else raw a f ≤ raw b f)
      → value_of a f ≤ value_of b f
  value_mono a b confidence h = h
  value_mono a b freshness h = h
  value_mono a b corroboration h = h
  value_mono a b novelty h = h
  value_mono a b quality h = h
  value_mono a b actionability h = h
  value_mono a b cost h = omega arith

  -- Of two candidates with factors that are percentages, the one with no factor lower but the cost,
  -- and no higher cost, has no lower score.
  pub score_of_mono :
      (a b : Candidate)
      → AreFactors a
      → AreFactors b
      → ((f : Factor) → if is_cost f then raw b f ≤ raw a f else raw a f ≤ raw b f)
      → score_of a ws ≤ score_of b ws
  unfolding weighted_mean
  score_of_mono a b h k better =
      rw (score_of_lem a h, score_of_lem b k)
        (mean_mono (total_of a ws factors) (total_of b ws factors) (divisor_of ws factors)
          (total_mono a b ws factors (λ f. value_mono a b f (better f))))
