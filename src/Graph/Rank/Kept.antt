-- ===== src/Graph/Rank/Kept.antt =====
-- What the bound of `rank` of crates/brolga-graph/src/rank.rs keeps.
use mathlib.Core.List.{Memᴰ}
use Prim.Native.Nat.{min}
use brolga.Prelude.{
  ℕ, suc, ◌-◌, ◌≤◌, ◌≡◌, refl, sym, ap, ◌∙◌, inl, inr, ◌⊎◌, Bool, true, false, Option, none, some,
  List, [], ◌∷◌, map, Text, text_eq, if◌then◌else◌, saturating_add, u64_max, All, Bool-cases, arith,
}
use brolga.Prelude.TextMap.{TextMap, get}
use brolga.Graph.Rank.{Verdict, excluded, protected, Ranked, Candidate, FactorWeights}
use brolga.Graph.Rank.Sorting.{sort_by, sort_by-All, sort_by-Memᴰ, place}
use brolga.Graph.Rank.Plan.{judge, judged, beside, ranks_before, competes, bound, rank, cluster}
use brolga.Graph.Rank.Placed.{bound-first}

-- How many compete for the places.
abbrev pub competing : List Ranked → ℕ
competing [] = 0
competing (r ∷ rs) = if competes r.verdict then suc (competing rs) else competing rs

abbrev is_excluded : Verdict → Bool
is_excluded (excluded keep) = true
is_excluded _ = false

-- No record is included after one that the bound excluded.
abbrev pub IsCut : List Ranked → Type 0
IsCut [] = Unit
IsCut (r ∷ rs) =
    ((is_excluded r.verdict ≡ false) ⊎ All (λ s. competes s.verdict ≡ false) rs) × IsCut rs

bound_full :
    (keep n : ℕ) (rs : List Ranked)
    → keep ≤ n
    → All (λ s. competes s.verdict ≡ false) (bound keep n rs)
unfolding bound
bound_full keep n [] h = tt
bound_full keep n (r ∷ rs) h =
    bound-first (All (λ s. competes s.verdict ≡ false)) keep n r rs (λ q k. absurd (omega arith))
      (λ q k. (refl, bound_full keep n rs h)) (λ q. (q, bound_full keep n rs h))

bound-IsCut :
    (keep n : ℕ) (rs : List Ranked)
    → All (λ s. is_excluded s.verdict ≡ false) rs
    → IsCut (bound keep n rs)
unfolding bound
bound-IsCut keep n [] h = tt
bound-IsCut keep n (r ∷ rs) h =
    bound-first IsCut keep n r rs (λ q k. (inl h.0, bound-IsCut keep (saturating_add n 1) rs h.1))
      (λ q k. (inr (bound_full keep n rs k), bound-IsCut keep n rs h.1))
      (λ q. (inl h.0, bound-IsCut keep n rs h.1))

bound-competing :
    (keep n : ℕ) (rs : List Ranked)
    → keep ≤ u64_max
    → competing (bound keep n rs) ≡ min (keep - n) (competing rs)
unfolding bound
bound-competing keep n [] few = omega arith
bound-competing keep n (r ∷ rs) few =
    bound-first (λ l. competing l ≡ min (keep - n) (competing (r ∷ rs))) keep n r rs
      (λ q k. rw q (ground (arith, bound-competing keep (saturating_add n 1) rs few)))
      (λ q k. rw q (ground (arith, bound-competing keep n rs few)))
      (λ q. rw q (bound-competing keep n rs few))

judged_fresh :
    (m : TextMap Text) (reason key : Option Text) (id : Text)
    → is_excluded (judged m reason key id) ≡ false
judged_fresh m (some reason) key id = refl
judged_fresh m none none id = refl
judged_fresh m none (some key) id = beside_fresh (get key m)
  where
    beside_fresh : (found : Option Text) → is_excluded (beside id found) ≡ false
    beside_fresh none = refl
    beside_fresh (some representative) = ground (arith, Bool-cases (text_eq representative id))

judge_fresh :
    (weights : FactorWeights) (m : TextMap Text) (cs : List Candidate)
    → All (λ s. is_excluded s.verdict ≡ false) (map (judge weights m) cs)
unfolding judge
judge_fresh weights m [] = tt
judge_fresh weights m (c ∷ cs) =
    (judged_fresh m c.protected c.cluster_key c.id, judge_fresh weights m cs)

competing-place :
    (r : Ranked) (rs : List Ranked) → competing (place ranks_before r rs) ≡ competing (r ∷ rs)
unfolding place
competing-place r [] = refl
competing-place r (a ∷ rs) = elim (Bool-cases (ranks_before r a)) [
  | inl q ↦ rw q refl
  | inr q ↦ rw q (swapped (competing-place r rs))
]
  where
    swapped :
        competing (place ranks_before r rs) ≡ competing (r ∷ rs)
        → competing (a ∷ place ranks_before r rs) ≡ competing (r ∷ a ∷ rs)
    swapped e = ground (arith, e)

competing-sort_by : (rs : List Ranked) → competing (sort_by ranks_before rs) ≡ competing rs
unfolding sort_by
competing-sort_by [] = refl
competing-sort_by (r ∷ rs) =
    let e = competing-sort_by rs in competing-place r (sort_by ranks_before rs) ∙ ground (arith, e)

-- Of the candidates that are neither protected nor represented, the plan includes as many as the
-- limit allows, and all of them before any that it excludes.
pub rank-IsCut :
    (cs : List Candidate) (weights : FactorWeights) (keep : ℕ)
    → keep ≤ u64_max
    → (competing (rank cs weights keep).ranked
        ≡ min keep (competing (map (judge weights (cluster weights cs).1) cs)))
      × IsCut (rank cs weights keep).ranked
unfolding rank
rank-IsCut cs weights keep few =
    let unsorted = map (judge weights (cluster weights cs).1) cs in
    let sorted = sort_by ranks_before unsorted in
    (
      omega (arith, bound-competing keep 0 sorted few, competing-sort_by unsorted),
      bound-IsCut keep 0 sorted (
          sort_by-All ranks_before (λ s. is_excluded s.verdict ≡ false) unsorted
            (judge_fresh weights (cluster weights cs).1 cs)),
    )

bound-Memᴰ :
    (keep n : ℕ) (r : Ranked) (rs : List Ranked)
    → competes r.verdict ≡ false
    → Memᴰ r rs
    → Memᴰ r (bound keep n rs)
bound-Memᴰ keep n r [] h m = elim m [ ]
bound-Memᴰ keep n r (a ∷ rs) h (Memᴰ.head e) =
    bound-first (Memᴰ r) keep n a rs (λ q k. Memᴰ.head e)
      (λ q k. let clash : competes a.verdict ≡ false = rw (sym e) h in cc) (λ q. Memᴰ.head e)
bound-Memᴰ keep n r (a ∷ rs) h (Memᴰ.tail m) =
    bound-first (Memᴰ r) keep n a rs
      (λ q k. Memᴰ.tail (bound-Memᴰ keep (saturating_add n 1) r rs h m))
      (λ q k. Memᴰ.tail (bound-Memᴰ keep n r rs h m)) (λ q. Memᴰ.tail (bound-Memᴰ keep n r rs h m))

judge-Memᴰ :
    (weights : FactorWeights) (m : TextMap Text) (c : Candidate) (cs : List Candidate)
    → Memᴰ c cs
    → Memᴰ (judge weights m c) (map (judge weights m) cs)
judge-Memᴰ weights m c [] h = elim h [ ]
judge-Memᴰ weights m c (a ∷ cs) (Memᴰ.head e) = Memᴰ.head (ap (judge weights m) e)
judge-Memᴰ weights m c (a ∷ cs) (Memᴰ.tail h) = Memᴰ.tail (judge-Memᴰ weights m c cs h)

-- A protected candidate is in the plan with its reason, whatever its score and the limit.
pub rank-keeps_protected :
    (cs : List Candidate) (weights : FactorWeights) (keep : ℕ) (c : Candidate) (reason : Text)
    → Memᴰ c cs
    → c.protected ≡ some reason
    → (r : Ranked) × Memᴰ r (rank cs weights keep).ranked
      × (r.id ≡ c.id)
      × (r.verdict ≡ protected reason)
unfolding rank judge
rank-keeps_protected cs weights keep c reason h p =
    let m = (cluster weights cs).1 in
    let unsorted = map (judge weights m) cs in
    let verdict : (judge weights m c).verdict ≡ protected reason =
      ap (λ o. judged m o c.cluster_key c.id) p in
    (
      judge weights m c,
      bound-Memᴰ keep 0 (judge weights m c) (sort_by ranks_before unsorted) (ap competes verdict)
          (sort_by-Memᴰ ranks_before (judge weights m c) unsorted (judge-Memᴰ weights m c cs h)),
      refl,
      verdict,
    )
