-- ===== src/Graph/Rank/Plan.antt =====
-- crates/brolga-graph/src/rank.rs, `rank` and `cluster`.
use brolga.Prelude.{
  ℕ, Bool, true, false, ◌&&◌, ◌||◌, not, Option, none, some, List, [], ◌∷◌, ◌++◌, map, length, Text,
  text_eq, text_leb, ltb, ◌==◌, if◌then◌else◌, saturating_add,
}
use brolga.Prelude.TextMap.{TextMap, get, insert}
use brolga.Graph.Rank.{
  Verdict, included, excluded, protected, clustered, is_kept, Ranked, Candidate, FactorWeights,
  is_inert, score_of, complete_factors,
}
use brolga.Graph.Rank.Sorting.{sort_by}

-- What selected a representative is kept as its score and the number of members.
pub record Cluster : Type 0 where
  pub key : Text
  pub representative : Text
  pub members : List Text
  pub selection : ℕ × ℕ

pub record RankingPlan : Type 0 where
  pub ranked : List Ranked
  pub clusters : List Cluster
  pub inert : Bool

abbrev pub kept : RankingPlan → List Text
kept p = kept_of p.ranked
  where
    kept_of : List Ranked → List Text
    kept_of [] = []
    kept_of (r ∷ rs) = let rest = kept_of rs in if is_kept r.verdict then r.id ∷ rest else rest

abbrev pub or_empty : Option (List Candidate) → List Candidate
or_empty none = []
or_empty (some cs) = cs

abbrev pub Groups : Type 0
Groups = TextMap (List Candidate)

-- `entry(key).or_default().push(candidate)`, of an unprotected candidate with a key.
abbrev pub grouped : Option Text → Option Text → Candidate → Groups → Groups
grouped (some reason) key c groups = groups
grouped none none c groups = groups
grouped none (some key) c groups = insert key (or_empty (get key groups) ++ c ∷ []) groups

unfoldable pub group : List Candidate → Groups → Groups
unfolding get insert
group [] groups = groups
group (c ∷ cs) groups = group cs (grouped c.protected c.cluster_key c groups)

-- What a candidate is judged to be before the bound is applied.
abbrev pub beside : Text → Option Text → Verdict
beside id none = included
beside id (some representative) =
    if not (text_eq representative id) then clustered representative else included

abbrev pub judged : TextMap Text → Option Text → Option Text → Text → Verdict
judged representatives (some reason) key id = protected reason
judged representatives none none id = included
judged representatives none (some key) id = beside id (get key representatives)

module _ (weights : FactorWeights) where
  -- That the comparison of `max_by` is `Greater`.
  abbrev pub greater : Candidate → Candidate → Bool
  greater a b =
      ltb (score_of b weights) (score_of a weights)
      || (score_of a weights == score_of b weights && not (text_leb b.id a.id))

  -- `max_by`, which keeps the later of two that compare as equal.
  unfoldable pub max_of : Candidate → List Candidate → Candidate
  max_of a [] = a
  max_of a (b ∷ s) = max_of (if greater a b then a else b) s

  abbrev pub cluster_of : Text → Candidate → List Candidate → Cluster
  cluster_of key best members = record {
    key = key;
    representative = best.id;
    members = sort_by text_leb (map (λ c. c.id) members);
    selection = (score_of best weights, length members);
  }

  -- A group of one is no cluster.
  abbrev pub clustered_group : Text → List Candidate → List Cluster
  clustered_group key [] = []
  clustered_group key (a ∷ []) = []
  clustered_group key (a ∷ b ∷ s) = cluster_of key (max_of a (b ∷ s)) (a ∷ b ∷ s) ∷ []

  abbrev pub represented : Text → List Candidate → TextMap Text → TextMap Text
  represented key [] m = m
  represented key (a ∷ []) m = m
  represented key (a ∷ b ∷ s) m = insert key (max_of a (b ∷ s)).id m

  -- The loop over the groups.
  unfoldable pub clusters_of : Groups → List Cluster
  unfolding max_of
  clusters_of [] = []
  clusters_of ((key, members) ∷ groups) = clustered_group key members ++ clusters_of groups

  unfoldable pub representatives_of : Groups → TextMap Text → TextMap Text
  unfolding max_of insert
  representatives_of [] m = m
  representatives_of ((key, members) ∷ groups) m =
      representatives_of groups (represented key members m)

  unfoldable pub cluster : List Candidate → List Cluster × TextMap Text
  unfolding group clusters_of representatives_of
  cluster cs = (clusters_of (group cs []), representatives_of (group cs []) [])

  unfoldable pub judge : TextMap Text → Candidate → Ranked
  unfolding get
  judge representatives c = record {
    id = c.id;
    score = score_of c weights;
    factors = complete_factors c;
    verdict = judged representatives c.protected c.cluster_key c.id;
  }

-- Descending score, then identifier.
abbrev pub ranks_before : Ranked → Ranked → Bool
ranks_before a b = ltb b.score a.score || (a.score == b.score && text_leb a.id b.id)

abbrev pub competes : Verdict → Bool
competes included = true
competes _ = false

-- The loop that applies the bound, with this many kept so far.
unfoldable pub bound : ℕ → ℕ → List Ranked → List Ranked
bound keep n [] = []
bound keep n (r ∷ rs) =
    let passed = r ∷ bound keep n rs in
    let taken = r ∷ bound keep (saturating_add n 1) rs in
    let dropped = (record r { verdict = excluded keep }) ∷ bound keep n rs in
    if competes r.verdict then (if ltb n keep then taken else dropped) else passed

unfoldable pub rank : List Candidate → FactorWeights → ℕ → RankingPlan
unfolding cluster judge sort_by bound
rank cs weights keep = record {
  ranked = bound keep 0 (sort_by ranks_before (map (judge weights (cluster weights cs).1) cs));
  clusters = (cluster weights cs).0;
  inert = is_inert weights;
}

-- `RankingPlan::explain`
unfoldable pub explain : RankingPlan → Text → Option Ranked
explain p id = find p.ranked
  where
    find : List Ranked → Option Ranked
    find [] = none
    find (r ∷ rs) = let rest = find rs in if text_eq r.id id then some r else rest
