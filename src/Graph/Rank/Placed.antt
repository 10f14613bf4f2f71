-- ===== src/Graph/Rank/Placed.antt =====
-- What `rank` of crates/brolga-graph/src/rank.rs makes of the candidates and of its bound.
use mathlib.Core.List.{Perm}
use mathlib.Core.List.Perm
use brolga.Prelude.{
  ℕ, ◌≤◌, ◌<◌, ◌≡◌, refl, sym, ap, ◌∙◌, subst, ◌⊎◌, All, inl, inr, Bool, true, false, ◌&&◌, ◌||◌,
  List, [], ◌∷◌, map, Text, text_leb, text_leb_total, ltb, ◌==◌, saturating_add, Bool-cases, arith,
}
use brolga.Prelude.TextMap.{TextMap}
use brolga.Graph.Rank.{excluded, Ranked, Candidate, FactorWeights, is_inert}
use brolga.Graph.Rank.Inert.{score_of-inert}
use brolga.Graph.Rank.Sorting.{sort_by, sort_by-Perm, sort_by-Sorted, sort_by-All, Sorted}
use brolga.Graph.Rank.Plan.{judge, ranks_before, competes, bound, rank, cluster}

-- What a record is ordered by.
abbrev Key : Type 0
Key = ℕ × Text

abbrev key_of : Ranked → Key
key_of r = (r.score, r.id)

abbrev key_before : Key → Key → Bool
key_before (s, i) (t, j) = ltb t s || (s == t && text_leb i j)

ranks_before_total : (a b : Ranked) → ranks_before a b ≡ false → ranks_before b a ≡ true
ranks_before_total a b h = ground (arith, text_leb_total a.id b.id)

Sorted-keys : (rs : List Ranked) → Sorted ranks_before rs → Sorted key_before (map key_of rs)
Sorted-keys [] h = tt
Sorted-keys (a ∷ []) h = tt
Sorted-keys (a ∷ b ∷ rs) h = (h.0, Sorted-keys (b ∷ rs) h.1)

keys-Sorted : (rs : List Ranked) → Sorted key_before (map key_of rs) → Sorted ranks_before rs
keys-Sorted [] h = tt
keys-Sorted (a ∷ []) h = tt
keys-Sorted (a ∷ b ∷ rs) h = (h.0, keys-Sorted (b ∷ rs) h.1)

-- The three things that the bound does with a record.
pub bound-first :
    (P : List Ranked → Type 0) (keep n : ℕ) (r : Ranked) (rs : List Ranked)
    → (competes r.verdict ≡ true → n < keep → P (r ∷ bound keep (saturating_add n 1) rs))
    → (competes r.verdict ≡ true
        → keep ≤ n
        → P ((record r { verdict = excluded keep }) ∷ bound keep n rs))
    → (competes r.verdict ≡ false → P (r ∷ bound keep n rs))
    → P (bound keep n (r ∷ rs))
unfolding bound
bound-first P keep n r rs taken dropped passed = elim (Bool-cases (competes r.verdict)) [
  | inr q ↦ rw (bound, q) (passed q)
  | inl q ↦ elim (Bool-cases (ltb n keep)) [
    | inl k ↦ rw (bound, q, k) (taken q (ground (arith, k)))
    | inr k ↦ rw (bound, q, k) (dropped q (ground (arith, k)))
  ]
]

bound-keys : (keep n : ℕ) (rs : List Ranked) → map key_of (bound keep n rs) ≡ map key_of rs
unfolding bound
bound-keys keep n [] = refl
bound-keys keep n (r ∷ rs) =
    bound-first (λ l. map key_of l ≡ key_of r ∷ map key_of rs) keep n r rs
      (λ q k. ap (λ l. key_of r ∷ l) (bound-keys keep (saturating_add n 1) rs))
      (λ q k. ap (λ l. key_of r ∷ l) (bound-keys keep n rs))
      (λ q. ap (λ l. key_of r ∷ l) (bound-keys keep n rs))

ids_of_keys : (rs : List Ranked) → map (λ k. k.1) (map key_of rs) ≡ map (λ r. r.id) rs
ids_of_keys [] = refl
ids_of_keys (r ∷ rs) = ap (λ l. r.id ∷ l) (ids_of_keys rs)

ids_of_judged :
    (weights : FactorWeights) (m : TextMap Text) (cs : List Candidate)
    → map (λ r. r.id) (map (judge weights m) cs) ≡ map (λ c. c.id) cs
unfolding judge
ids_of_judged weights m [] = refl
ids_of_judged weights m (c ∷ cs) = ap (λ l. c.id ∷ l) (ids_of_judged weights m cs)

All-keys :
    (P : ℕ → Type 0) (rs : List Ranked) → All (λ r. P r.score) rs → All (λ k. P k.0) (map key_of rs)
All-keys P [] h = tt
All-keys P (r ∷ rs) h = (h.0, All-keys P rs h.1)

All-judged :
    (weights : FactorWeights) (m : TextMap Text) (cs : List Candidate)
    → is_inert weights ≡ true
    → All (λ r. r.score ≡ 0) (map (judge weights m) cs)
unfolding judge
All-judged weights m [] h = tt
All-judged weights m (c ∷ cs) h = (score_of-inert c weights h, All-judged weights m cs h)

-- Of records that all score nothing, the order is that of their identifiers.
ids-Sorted :
    (ks : List Key)
    → All (λ k. k.0 ≡ 0) ks
    → Sorted key_before ks
    → Sorted text_leb (map (λ k. k.1) ks)
ids-Sorted [] z h = tt
ids-Sorted (a ∷ []) z h = tt
ids-Sorted (a ∷ b ∷ ks) z h = (ground (arith, z.0, z.1.0, h.0), ids-Sorted (b ∷ ks) z.1 h.1)

-- The plan lists every candidate once, by score from the highest and then by identifier. Where every
-- weight is zero, that is the order of the identifiers, whatever the order of the candidates.
pub rank-IsOrdered :
    (cs : List Candidate) (weights : FactorWeights) (keep : ℕ)
    → Sorted ranks_before (rank cs weights keep).ranked
      × Perm (map (λ c. c.id) cs) (map (λ r. r.id) (rank cs weights keep).ranked)
      × ((is_inert weights ≡ false)
          ⊎ Sorted text_leb (map (λ r. r.id) (rank cs weights keep).ranked))
unfolding rank
rank-IsOrdered cs weights keep =
    let unsorted = map (judge weights (cluster weights cs).1) cs in
    let sorted = sort_by ranks_before unsorted in
    let ids =
      sym (ids_of_keys sorted)
      ∙ ap (map (λ k. k.1)) (sym (bound-keys keep 0 sorted))
      ∙ ids_of_keys (bound keep 0 sorted) in
    let ordered = Sorted-keys sorted (sort_by-Sorted ranks_before ranks_before_total unsorted) in
    (
      keys-Sorted (bound keep 0 sorted)
          (subst (Sorted key_before) (sym (bound-keys keep 0 sorted)) ordered),
      subst (λ l. Perm l (map (λ r. r.id) (bound keep 0 sorted)))
          (ids_of_judged weights (cluster weights cs).1 cs)
          (subst (Perm (map (λ r. r.id) unsorted)) ids
            (Perm.map (λ r. r.id) (sort_by-Perm ranks_before unsorted))),
      elim (Bool-cases (is_inert weights)) [
        | inr q ↦ inl q
        | inl q ↦
            let scores =
              sort_by-All ranks_before (λ r. r.score ≡ 0) unsorted
                (All-judged weights (cluster weights cs).1 cs q) in
            inr (
              subst (Sorted text_leb) (ids_of_keys sorted ∙ ids)
                (ids-Sorted (map key_of sorted) (All-keys (λ n. n ≡ 0) sorted scores) ordered))
      ],
    )
