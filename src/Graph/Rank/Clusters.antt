-- ===== src/Graph/Rank/Clusters.antt =====
-- The clusters of `cluster` of crates/brolga-graph/src/rank.rs and those that they represent.
use mathlib.Core.List.{Memᴰ}
use brolga.Prelude.{
  ◌≡◌, refl, sym, ap, subst, inl, inr, ◌⊎◌, Bool, true, false, ◌&&◌, ◌||◌, some, List, [], ◌∷◌,
  Text, text_eq, text_eq_iff, text_leb, text_leb_refl, text_leb_trans, text_leb_total, ltb, ◌==◌,
  if◌then◌else◌, Bool-cases, arith,
}
use brolga.Prelude.TextMap.{TextMap, get, get-insert}
use brolga.Graph.Rank.{Candidate, FactorWeights, score_of}
use brolga.Graph.Rank.Plan.{Groups, greater, max_of, represented, representatives_of}

module _ (weights : FactorWeights) where
  -- A higher score, or the same and no later identifier.
  abbrev pub Leads : Candidate → Candidate → Type 0
  Leads a b =
      (ltb (score_of b weights) (score_of a weights)
        || (score_of a weights == score_of b weights && text_leb a.id b.id))
      ≡ true

  Leads_refl : (a : Candidate) → Leads a a
  Leads_refl a = ground (arith, text_leb_refl a.id)

  Leads_trans : (a b c : Candidate) → Leads a b → Leads b c → Leads a c
  Leads_trans a b c h k = ground (arith, text_leb_trans a.id b.id c.id)

  greater-Leads : (a b : Candidate) → greater weights a b ≡ true → Leads a b
  greater-Leads a b h = ground (arith, text_leb_total b.id a.id)

  not_greater-Leads : (a b : Candidate) → greater weights a b ≡ false → Leads b a
  not_greater-Leads a b h = ground arith

  -- What holds of each, if it is the one that is kept, holds of the one that is.
  kept_one :
      (P : Candidate → Type 0) (a b : Candidate)
      → (Leads a b → P a)
      → (Leads b a → P b)
      → P (if greater weights a b then a else b)
  kept_one P a b f g = choose (greater weights a b) refl
    where
      choose : (t : Bool) → greater weights a b ≡ t → P (if t then a else b)
      choose true q = f (greater-Leads a b q)
      choose false q = g (not_greater-Leads a b q)

  max_of-Leads-first : (a : Candidate) (s : List Candidate) → Leads (max_of weights a s) a
  unfolding max_of
  max_of-Leads-first a [] = Leads_refl a
  max_of-Leads-first a (b ∷ s) =
      kept_one (λ c. Leads (max_of weights c s) a) a b (λ h. max_of-Leads-first a s)
        (λ h. Leads_trans (max_of weights b s) b a (max_of-Leads-first b s) h)

  max_of-Leads : (x a : Candidate) (s : List Candidate) → Memᴰ x s → Leads (max_of weights a s) x
  unfolding max_of
  max_of-Leads x a [] m = elim m [ ]
  max_of-Leads x a (b ∷ s) (Memᴰ.head e) = subst (Leads (max_of weights a (b ∷ s))) (sym e) (
      kept_one (λ c. Leads (max_of weights c s) b) a b
        (λ h. Leads_trans (max_of weights a s) a b (max_of-Leads-first a s) h)
        (λ h. max_of-Leads-first b s))
  max_of-Leads x a (b ∷ s) (Memᴰ.tail m) =
      kept_one (λ c. Leads (max_of weights c s) x) a b (λ h. max_of-Leads x a s m)
        (λ h. max_of-Leads x b s m)

  max_of-Memᴰ : (a : Candidate) (s : List Candidate) → Memᴰ (max_of weights a s) (a ∷ s)
  unfolding max_of
  max_of-Memᴰ a [] = Memᴰ.head refl
  max_of-Memᴰ a (b ∷ s) =
      kept_one (λ c. Memᴰ (max_of weights c s) (a ∷ b ∷ s)) a b
        (λ h. widen (max_of weights a s) (max_of-Memᴰ a s)) (λ h. Memᴰ.tail (max_of-Memᴰ b s))
    where
      widen : (x : Candidate) → Memᴰ x (a ∷ s) → Memᴰ x (a ∷ b ∷ s)
      widen x (Memᴰ.head e) = Memᴰ.head e
      widen x (Memᴰ.tail m) = Memᴰ.tail (Memᴰ.tail m)

  -- The best of the members of some group with this key.
  abbrev pub Best : Text → Text → Groups → Type 0
  Best k representative groups =
      (members : List Candidate) × (best : Candidate) × Memᴰ (k, members) groups
      × (best.id ≡ representative)
      × Memᴰ best members
      × ((x : Candidate) → Memᴰ x members → Leads best x)

  pub representatives_of-Best :
      (k representative : Text) (groups : Groups) (m : TextMap Text)
      → get k (representatives_of weights groups m) ≡ some representative
      → (get k m ≡ some representative) ⊎ Best k representative groups
  unfolding representatives_of
  representatives_of-Best k representative [] m h = inl h
  representatives_of-Best k representative ((j, members) ∷ groups) m h =
      elim (representatives_of-Best k representative groups (represented weights j members m) h) [
        | inr (ms, best, found, same, member, leads) ↦
            inr (ms, best, Memᴰ.tail found, same, member, leads)
        | inl here ↦ at_entry members here
      ]
    where
      at_entry :
          (ms : List Candidate)
          → get k (represented weights j ms m) ≡ some representative
          → (get k m ≡ some representative) ⊎ Best k representative ((j, ms) ∷ groups)
      at_entry [] e = inl e
      at_entry (a ∷ []) e = inl e
      at_entry (a ∷ b ∷ s) e = elim (Bool-cases (text_eq k j)) [
        | inr q ↦ inl (rw (get-insert k j (max_of weights a (b ∷ s)).id m, q) at e)
        | inl q ↦
            let key : k ≡ j = (text_eq_iff k j).0 q in
            let best = max_of weights a (b ∷ s) in
            let same : some best.id ≡ some representative =
              rw (get-insert k j (max_of weights a (b ∷ s)).id m, q) at e in
            inr (
              a ∷ b ∷ s,
              best,
              Memᴰ.head (ap (λ (x : Text). (x, a ∷ b ∷ s)) key),
              ground (arith, same),
              max_of-Memᴰ a (b ∷ s),
              λ x h. leads x h,
            )
      ]
        where
          leads : (x : Candidate) → Memᴰ x (a ∷ b ∷ s) → Leads (max_of weights a (b ∷ s)) x
          leads x (Memᴰ.head f) =
              subst (Leads (max_of weights a (b ∷ s))) (sym f) (max_of-Leads-first a (b ∷ s))
          leads x (Memᴰ.tail h) = max_of-Leads x a (b ∷ s) h
