-- ===== src/Tests/Rank.antt =====
-- Runs of crates/brolga-graph/src/rank.rs.
use mathlib.Core.List.{Perm}
use brolga.Prelude.{
  ◌≤◌, ◌≡◌, refl, ◌⊎◌, false, List, [], ◌∷◌, map, codes, text_eq, text_leb, All, arith,
  if◌then◌else◌,
}
use Prim.Native.Nat.{min}
use brolga.Prelude.TextMap.{get, insert}
use brolga.Graph.Rank.{
  Factor, confidence, freshness, corroboration, novelty, quality, actionability, cost, is_cost, raw,
  included, excluded, protected, clustered, Candidate, balanced, no_weights, is_inert,
  new_candidate, with_factor, protect, in_cluster, score_of,
}
use brolga.Graph.Rank.Plan.{rank, judge, cluster, ranks_before}
use brolga.Graph.Rank.Sorting.{Sorted, place}
use brolga.Graph.Rank.Scores.{AreFactors, AreWeights}
use brolga.Graph.Rank.Placed.{rank-IsOrdered}
use brolga.Graph.Rank.Kept.{competing, IsCut, rank-IsCut}
use brolga.Graph.Rank.Represented.{IsFolded, rank-IsFolded}

abbrev sure : Candidate
sure = in_cluster (codes "k") (with_factor confidence 90 (new_candidate (codes "a")))

abbrev unsure : Candidate
unsure = in_cluster (codes "k") (with_factor confidence 10 (new_candidate (codes "b")))

abbrev named : Candidate
named = protect (codes "named") (new_candidate (codes "c"))

abbrev alone : Candidate
alone = with_factor confidence 50 (new_candidate (codes "d"))

abbrev four : List Candidate
four = unsure ∷ named ∷ alone ∷ sure ∷ []

verdicts_test :
    map (λ r. r.verdict) (rank four balanced 1).ranked
    ≡ included ∷ excluded 1 ∷ clustered (codes "a") ∷ protected (codes "named") ∷ []
unfolding rank score_of get insert text_eq text_leb place
verdicts_test = refl

sure-AreFactors : AreFactors sure
sure-AreFactors confidence = omega arith
sure-AreFactors freshness = omega arith
sure-AreFactors corroboration = omega arith
sure-AreFactors novelty = omega arith
sure-AreFactors quality = omega arith
sure-AreFactors actionability = omega arith
sure-AreFactors cost = omega arith

unsure-AreFactors : AreFactors unsure
unsure-AreFactors confidence = omega arith
unsure-AreFactors freshness = omega arith
unsure-AreFactors corroboration = omega arith
unsure-AreFactors novelty = omega arith
unsure-AreFactors quality = omega arith
unsure-AreFactors actionability = omega arith
unsure-AreFactors cost = omega arith

balanced-AreWeights : AreWeights balanced
balanced-AreWeights confidence = omega arith
balanced-AreWeights freshness = omega arith
balanced-AreWeights corroboration = omega arith
balanced-AreWeights novelty = omega arith
balanced-AreWeights quality = omega arith
balanced-AreWeights actionability = omega arith
balanced-AreWeights cost = omega arith

unsure_below :
    (f : Factor) → if is_cost f then raw sure f ≤ raw unsure f else raw unsure f ≤ raw sure f
unsure_below confidence = omega arith
unsure_below freshness = omega arith
unsure_below corroboration = omega arith
unsure_below novelty = omega arith
unsure_below quality = omega arith
unsure_below actionability = omega arith
unsure_below cost = omega arith

-- The candidates came as b, c, d and a.
inert_test :
    map (λ r. r.id) (rank four no_weights 4).ranked
    ≡ codes "a" ∷ codes "b" ∷ codes "c" ∷ codes "d" ∷ []
unfolding rank score_of get insert text_eq text_leb place
inert_test = refl

rank-IsOrdered_example :
    Sorted ranks_before (rank four no_weights 1).ranked
    × Perm (map (λ c. c.id) four) (map (λ r. r.id) (rank four no_weights 1).ranked)
    × ((is_inert no_weights ≡ false)
        ⊎ Sorted text_leb (map (λ r. r.id) (rank four no_weights 1).ranked))
rank-IsOrdered_example = rank-IsOrdered four no_weights 1

rank-IsCut_example :
    (competing (rank four balanced 1).ranked
      ≡ min 1 (competing (map (judge balanced (cluster balanced four).1) four)))
    × IsCut (rank four balanced 1).ranked
rank-IsCut_example = rank-IsCut four balanced 1 (omega arith)

rank-IsFolded_example :
    All (λ r. IsFolded four balanced r.verdict r.id) (rank four balanced 1).ranked
rank-IsFolded_example = rank-IsFolded four balanced 1
