-- ===== src/Graph/Rank/Groups.antt =====
-- The groups that `cluster` of crates/brolga-graph/src/rank.rs makes of the candidates.
use mathlib.Core.List.{Memᴰ}
use brolga.Prelude.{
  ◌≡◌, refl, sym, ap, ◌∙◌, subst, inl, inr, Option, none, some, List, [], ◌∷◌, ◌++◌, Text, text_eq,
  text_eq_iff, All, Bool-cases,
}
use brolga.Prelude.TextMap.{get, get-insert}
use brolga.Graph.Rank.{Candidate}
use brolga.Graph.Rank.Plan.{Groups, or_empty, grouped, group}
use brolga.Graph.Rank.Ascending.{Ascending, insert-Ascending, insert-All, get-All}

append-All :
    {A : Type 0} (P : A → Type 0) (xs : List A) (a : A) → All P xs → P a → All P (xs ++ a ∷ [])
append-All P [] a h p = (p, tt)
append-All P (x ∷ xs) a h p = (h.0, append-All P xs a h.1 p)

append-left : {A : Type 0} (x : A) (xs ys : List A) → Memᴰ x xs → Memᴰ x (xs ++ ys)
append-left x [] ys m = elim m [ ]
append-left x (a ∷ xs) ys (Memᴰ.head e) = Memᴰ.head e
append-left x (a ∷ xs) ys (Memᴰ.tail m) = Memᴰ.tail (append-left x xs ys m)

append-last : {A : Type 0} (x : A) (xs : List A) → Memᴰ x (xs ++ x ∷ [])
append-last x [] = Memᴰ.head refl
append-last x (a ∷ xs) = Memᴰ.tail (append-last x xs)

module _ (all : List Candidate) where
  -- A candidate that is grouped under this key.
  abbrev pub IsMember : Text → Candidate → Type 0
  IsMember key c = Memᴰ c all × (c.cluster_key ≡ some key) × (c.protected ≡ none)

  abbrev pub IsGroup : Text × List Candidate → Type 0
  IsGroup e = All (IsMember e.0) e.1

  grouped-All :
      (reason key : Option Text) (c : Candidate) (groups : Groups)
      → Memᴰ c all
      → c.protected ≡ reason
      → c.cluster_key ≡ key
      → All IsGroup groups
      → All IsGroup (grouped reason key c groups)
  grouped-All (some reason) key c groups m p k h = h
  grouped-All none none c groups m p k h = h
  grouped-All none (some key) c groups m p k h =
      insert-All IsGroup key (or_empty (get key groups) ++ c ∷ []) groups
        (append-All (IsMember key) (or_empty (get key groups)) c (found (get key groups) refl)
          (m, k, p))
        h
    where
      found : (o : Option (List Candidate)) → get key groups ≡ o → All (IsMember key) (or_empty o)
      found none e = tt
      found (some cs) e = get-All IsGroup key cs groups h e

  pub group-All :
      (cs : List Candidate) (groups : Groups)
      → All (λ c. Memᴰ c all) cs
      → All IsGroup groups
      → All IsGroup (group cs groups)
  unfolding group
  group-All [] groups m h = h
  group-All (c ∷ cs) groups m h =
      group-All cs (grouped c.protected c.cluster_key c groups) m.1
        (grouped-All c.protected c.cluster_key c groups m.0 refl refl h)

grouped-Ascending :
    (reason key : Option Text) (c : Candidate) (groups : Groups)
    → Ascending groups
    → Ascending (grouped reason key c groups)
grouped-Ascending (some reason) key c groups h = h
grouped-Ascending none none c groups h = h
grouped-Ascending none (some key) c groups h =
    insert-Ascending key (or_empty (get key groups) ++ c ∷ []) groups h

pub group-Ascending :
    (cs : List Candidate) (groups : Groups) → Ascending groups → Ascending (group cs groups)
unfolding group
group-Ascending [] groups h = h
group-Ascending (c ∷ cs) groups h =
    group-Ascending cs (grouped c.protected c.cluster_key c groups)
      (grouped-Ascending c.protected c.cluster_key c groups h)

-- Grouped under its key.
abbrev pub Within : Text → Candidate → Groups → Type 0
Within k x groups = Memᴰ x (or_empty (get k groups))

grouped-Within :
    (reason key : Option Text) (c : Candidate) (groups : Groups) (k : Text) (x : Candidate)
    → Within k x groups
    → Within k x (grouped reason key c groups)
grouped-Within (some reason) key c groups k x h = h
grouped-Within none none c groups k x h = h
grouped-Within none (some key) c groups k x h =
    rw (get-insert k key (or_empty (get key groups) ++ c ∷ []) groups)
      (elim (Bool-cases (text_eq k key)) [
        | inl q ↦
            let same : k ≡ key = (text_eq_iff k key).0 q in
            rw q (
              append-left x (or_empty (get key groups)) (c ∷ [])
                (subst (λ j. Memᴰ x (or_empty (get j groups))) same h))
        | inr q ↦ rw q h
      ])

group-Within :
    (cs : List Candidate) (groups : Groups) (k : Text) (x : Candidate)
    → Within k x groups
    → Within k x (group cs groups)
unfolding group
group-Within [] groups k x h = h
group-Within (c ∷ cs) groups k x h =
    group-Within cs (grouped c.protected c.cluster_key c groups) k x
      (grouped-Within c.protected c.cluster_key c groups k x h)

grouped-new :
    (reason key : Option Text) (c : Candidate) (groups : Groups) (k : Text)
    → reason ≡ none
    → key ≡ some k
    → Within k c (grouped reason key c groups)
grouped-new (some reason) key c groups k p h = cc
grouped-new none none c groups k p h = cc
grouped-new none (some key) c groups k p h =
    let same : key ≡ k = cc in
    let found = (text_eq_iff k key).1 (sym same) in
    rw (get-insert k key (or_empty (get key groups) ++ c ∷ []) groups, found)
      (append-last c (or_empty (get key groups)))

-- An unprotected candidate with a key is in the group of it.
pub group-finds :
    (cs : List Candidate) (groups : Groups) (k : Text) (x : Candidate)
    → Memᴰ x cs
    → x.protected ≡ none
    → x.cluster_key ≡ some k
    → Within k x (group cs groups)
unfolding group
group-finds [] groups k x m p h = elim m [ ]
group-finds (c ∷ cs) groups k x (Memᴰ.head e) p h =
    group-Within cs (grouped c.protected c.cluster_key c groups) k x (
      subst (λ y. Within k y (grouped c.protected c.cluster_key c groups)) (sym e)
        (grouped-new c.protected c.cluster_key c groups k
          (ap (λ (y : Candidate). y.protected) (sym e) ∙ p)
          (ap (λ (y : Candidate). y.cluster_key) (sym e) ∙ h)))
group-finds (c ∷ cs) groups k x (Memᴰ.tail m) p h =
    group-finds cs (grouped c.protected c.cluster_key c groups) k x m p h
