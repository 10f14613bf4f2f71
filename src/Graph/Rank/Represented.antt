-- ===== src/Graph/Rank/Represented.antt =====
-- Who stands for a candidate that `rank` of crates/brolga-graph/src/rank.rs folds into a cluster.
use mathlib.Core.List.{Memᴰ}
use brolga.Prelude.{
  ℕ, ◌≡◌, ◌≢◌, refl, sym, subst, inl, inr, true, Option, none, some, List, [], ◌∷◌, map, Text,
  text_eq, text_eq_iff, saturating_add, All, All-Memᴰ, Bool-cases,
}
use brolga.Prelude.TextMap.{get}
use brolga.Graph.Rank.{
  Verdict, included, excluded, protected, clustered, Ranked, Candidate, FactorWeights,
}
use brolga.Graph.Rank.Plan.{
  or_empty, group, cluster, judge, judged, beside, bound, rank, ranks_before,
}
use brolga.Graph.Rank.Sorting.{sort_by, sort_by-All}
use brolga.Graph.Rank.Placed.{bound-first}
use brolga.Graph.Rank.Ascending.{get-entry}
use brolga.Graph.Rank.Groups.{IsMember, IsGroup, group-All, group-Ascending, group-finds}
use brolga.Graph.Rank.Clusters.{Leads, representatives_of-Best}

module _ (cs : List Candidate) (weights : FactorWeights) where
  -- This candidate is represented by that one: both are unprotected and have the same key, the
  -- other leads and is not represented itself.
  abbrev pub StandsFor : Candidate → Candidate → Type 0
  StandsFor best c =
      (key : Text) × (c.cluster_key ≡ some key)
      × (best.cluster_key ≡ some key)
      × (c.protected ≡ none)
      × (best.protected ≡ none)
      × Leads weights best c
      × ((judge weights (cluster weights cs).1 best).verdict ≡ included)

  -- If the verdict on a record is that another stands for it, the other does.
  abbrev pub IsFolded : Verdict → Text → Type 0
  IsFolded (clustered representative) id =
      (c : Candidate) × (best : Candidate) × Memᴰ c cs
      × Memᴰ best cs
      × (c.id ≡ id)
      × (best.id ≡ representative)
      × (representative ≢ id)
      × StandsFor best c
  IsFolded included id = Unit
  IsFolded (excluded keep) id = Unit
  IsFolded (protected reason) id = Unit

  members_within :
      (s : List Candidate) → ((c : Candidate) → Memᴰ c s → Memᴰ c cs) → All (λ c. Memᴰ c cs) s
  members_within [] h = tt
  members_within (c ∷ s) h = (h c (Memᴰ.head refl), members_within s (λ x m. h x (Memᴰ.tail m)))

  -- What the representative of a key is.
  found-StandsFor :
      (c : Candidate) (key representative : Text)
      → Memᴰ c cs
      → c.protected ≡ none
      → c.cluster_key ≡ some key
      → get key (cluster weights cs).1 ≡ some representative
      → (best : Candidate) × Memᴰ best cs × (best.id ≡ representative) × StandsFor best c
  unfolding cluster judge
  found-StandsFor c key representative m p k h =
      elim (representatives_of-Best weights key representative (group cs []) [] h) [
        | inl e ↦ cc
        | inr (members, best, found, same, member, leads) ↦
            let grouped = group-All cs cs [] (members_within cs (λ x m. m)) tt in
            let of_group = All-Memᴰ (IsGroup cs) (group cs []) grouped found in
            let (inside, best_key, best_free) =
              All-Memᴰ (IsMember cs key) members of_group member in
            let entry = get-entry key members (group cs []) (group-Ascending cs [] tt) found in
            let here : Memᴰ c members =
              subst (λ o. Memᴰ c (or_empty o)) entry (group-finds cs [] key c m p k) in
            let own : text_eq representative best.id ≡ true =
              (text_eq_iff representative best.id).1 (sym same) in
            let verdict : judged (cluster weights cs).1 best.protected best.cluster_key best.id
                ≡ included =
              rw (best_free, best_key, h, own) refl in
            (best, inside, same, (key, k, best_key, p, best_free, leads c here, verdict))
      ]

  beside-IsFolded :
      (c : Candidate) (key : Text) (found : Option Text)
      → Memᴰ c cs
      → c.protected ≡ none
      → c.cluster_key ≡ some key
      → get key (cluster weights cs).1 ≡ found
      → IsFolded (beside c.id found) c.id
  beside-IsFolded c key none m p k h = tt
  beside-IsFolded c key (some representative) m p k h =
      elim (Bool-cases (text_eq representative c.id)) [
        | inl q ↦ rw q tt
        | inr q ↦
            let (best, inside, same, stands) = found-StandsFor c key representative m p k h in
            let differs : representative ≢ c.id =
              λ e. let equal = (text_eq_iff representative c.id).1 e in cc in
            rw q (c, best, m, inside, refl, same, differs, stands)
      ]

  judged-IsFolded :
      (c : Candidate) (reason key : Option Text)
      → Memᴰ c cs
      → c.protected ≡ reason
      → c.cluster_key ≡ key
      → IsFolded (judged (cluster weights cs).1 reason key c.id) c.id
  judged-IsFolded c (some reason) key m p k = tt
  judged-IsFolded c none none m p k = tt
  judged-IsFolded c none (some key) m p k =
      beside-IsFolded c key (get key (cluster weights cs).1) m p k refl

  every-IsFolded :
      (s : List Candidate)
      → ((c : Candidate) → Memᴰ c s → Memᴰ c cs)
      → All (λ r. IsFolded r.verdict r.id) (map (judge weights (cluster weights cs).1) s)
  unfolding judge
  every-IsFolded [] h = tt
  every-IsFolded (c ∷ s) h = (
    judged-IsFolded c c.protected c.cluster_key (h c (Memᴰ.head refl)) refl refl,
    every-IsFolded s (λ x m. h x (Memᴰ.tail m)),
  )

  bound-All :
      (keep n : ℕ) (rs : List Ranked)
      → All (λ r. IsFolded r.verdict r.id) rs
      → All (λ r. IsFolded r.verdict r.id) (bound keep n rs)
  unfolding bound
  bound-All keep n [] h = tt
  bound-All keep n (r ∷ rs) h =
      bound-first (All (λ r. IsFolded r.verdict r.id)) keep n r rs
        (λ q k. (h.0, bound-All keep (saturating_add n 1) rs h.1))
        (λ q k. (tt, bound-All keep n rs h.1)) (λ q. (h.0, bound-All keep n rs h.1))

  -- Every record of the plan whose verdict names a representative is an unprotected candidate, and
  -- the representative is another unprotected one with the same key, with a higher score or with the
  -- same and no later identifier, which no other represents.
  pub rank-IsFolded : (keep : ℕ) → All (λ r. IsFolded r.verdict r.id) (rank cs weights keep).ranked
  unfolding rank
  rank-IsFolded keep =
      bound-All keep 0 (sort_by ranks_before (map (judge weights (cluster weights cs).1) cs)) (
        sort_by-All ranks_before (λ r. IsFolded r.verdict r.id)
          (map (judge weights (cluster weights cs).1) cs) (every-IsFolded cs (λ x m. m)))
