-- ===== src/Graph/Resolve/Combined/Kept.antt =====
-- What a merge keeps of the markings and the sources, in crates/brolga-graph/src/resolve.rs.
use brolga.Prelude.{
  ◌≡◌, refl, sym, ap, ◌∙◌, inl, inr, Text, text_eq, text_eq_iff, text_leb, text_leb_total,
  text_leb_antisymm, text_leb_trans, true, false, ◌||◌, List, [], ◌∷◌, ◌++◌, map, arith, Bool-cases,
  All,
}
use brolga.Model.Marking
use brolga.Model.Marking.{Marking, MarkingSet, marking_eq, inserted, union}
use brolga.Model.Marking.Union.{marking_eq_iff, contains-inserted, contains-union}
use brolga.Graph.Resolve.{contains}
use brolga.Graph.Resolve.Combined.{
  insert_all, merged_markings, marking_key, any_absent, merge_loses_a_marking, added, extended,
  merged_sources,
}

contains-insert_all :
    (k : Marking) (s t : MarkingSet)
    → Marking.contains k (insert_all s t) ≡ (Marking.contains k s || Marking.contains k t)
unfolding insert_all Marking.contains
contains-insert_all k s [] = ground arith
contains-insert_all k s (m ∷ t) =
    ground (arith, contains-insert_all k (inserted m s) t, contains-inserted k m s)

contains-merged_markings :
    (k : Marking) (a b : MarkingSet)
    → Marking.contains k (merged_markings a b) ≡ (Marking.contains k a || Marking.contains k b)
unfolding merged_markings
contains-merged_markings k a b =
    ground (arith, contains-insert_all k (union a b) b, contains-union k a b)

contains-keys :
    (k : Marking) (s : MarkingSet)
    → Marking.contains k s ≡ true
    → contains (marking_key k) (map marking_key s) ≡ true
unfolding Marking.contains contains
contains-keys k [] h = cc
contains-keys k (m ∷ s) h = elim (Bool-cases (marking_eq k m)) [
  | inl q ↦
      let e : k ≡ m = (marking_eq_iff k m).0 q in
      ground (arith, (text_eq_iff (marking_key k) (marking_key m)).1 (ap marking_key e))
  | inr q ↦ ground (arith, contains-keys k s)
]

contains-append :
    (k : Marking) (s t : MarkingSet)
    → Marking.contains k (s ++ t) ≡ (Marking.contains k s || Marking.contains k t)
unfolding Marking.contains
contains-append k [] t = refl
contains-append k (m ∷ s) t = ground (arith, contains-append k s t)

none_absent :
    (s full : MarkingSet)
    → ((k : Marking) → Marking.contains k s ≡ true → Marking.contains k full ≡ true)
    → any_absent s (map marking_key full) ≡ false
unfolding any_absent Marking.contains
none_absent [] full h = refl
none_absent (m ∷ s) full h =
    let here = contains-keys m full (h m (ground (arith, (marking_eq_iff m m).1 refl))) in
    let rest = none_absent s full (λ k c. h k (ground (arith, c))) in ground (arith, here, rest)

-- The markings of a merged identity are those of either record: a marking is among them exactly when
-- one of the two carries it, and the check that compares their keys reports no loss.
pub merged_markings_lem :
    (left right : MarkingSet)
    → ((k : Marking)
        → Marking.contains k (merged_markings left right)
          ≡ (Marking.contains k left || Marking.contains k right))
      × (merge_loses_a_marking left right (merged_markings left right) ≡ false)
unfolding merge_loses_a_marking
merged_markings_lem left right = (
  λ k. contains-merged_markings k left right,
  none_absent (left ++ right) (merged_markings left right)
      (λ k c. contains-merged_markings k left right ∙ sym (contains-append k left right) ∙ c),
)

-- A list of texts in strict order, as a `BTreeSet` gives them.
abbrev pub IsOrderedSet : List Text → Type 0
IsOrderedSet [] = Unit
IsOrderedSet (t ∷ s) = All (λ x. text_leb x t ≡ false) s × IsOrderedSet s

contains-added :
    (k t : Text) (s : List Text) → contains k (added t s) ≡ (text_eq k t || contains k s)
unfolding contains added
contains-added k t [] = refl
contains-added k t (x ∷ s) = ground (arith, text_eq_iff t x, contains-added k t s)

contains-extended :
    (k : Text) (s ts : List Text) → contains k (extended s ts) ≡ (contains k s || contains k ts)
unfolding contains extended
contains-extended k s [] = ground arith
contains-extended k s (t ∷ ts) =
    ground (arith, contains-extended k (added t s) ts, contains-added k t s)

All-added :
    (u t : Text) (s : List Text)
    → text_leb t u ≡ false
    → All (λ x. text_leb x u ≡ false) s
    → All (λ x. text_leb x u ≡ false) (added t s)
unfolding added
All-added u t [] h k = (h, tt)
All-added u t (x ∷ s) h (p, k) = elim (Bool-cases (text_eq t x)) [
  | inl q ↦ rw q (p, k)
  | inr q ↦ elim (Bool-cases (text_leb t x)) [
    | inl q' ↦ rw (q, q') (h, (p, k))
    | inr q' ↦ rw (q, q') (p, All-added u t s h k)
  ]
]

All-earlier :
    (t x : Text) (s : List Text)
    → text_leb x t ≡ false
    → All (λ y. text_leb y x ≡ false) s
    → All (λ y. text_leb y t ≡ false) s
All-earlier t x [] h k = tt
All-earlier t x (y ∷ s) h (p, k) =
    (ground (arith, h, p, text_leb_trans x y t, text_leb_total y x), All-earlier t x s h k)

added-IsOrderedSet : (t : Text) (s : List Text) → IsOrderedSet s → IsOrderedSet (added t s)
unfolding added
added-IsOrderedSet t [] h = (tt, tt)
added-IsOrderedSet t (x ∷ s) (p, h) = elim (Bool-cases (text_eq t x)) [
  | inl q ↦ rw q (p, h)
  | inr q ↦ elim (Bool-cases (text_leb t x)) [
    | inl q' ↦
        let later : text_leb x t ≡ false = ground (arith, text_leb_antisymm t x, q, q') in
        rw (q, q') ((later, All-earlier t x s later p), (p, h))
    | inr q' ↦ rw (q, q') (All-added x t s q' p, added-IsOrderedSet t s h)
  ]
]

extended-IsOrderedSet : (s ts : List Text) → IsOrderedSet s → IsOrderedSet (extended s ts)
unfolding extended
extended-IsOrderedSet s [] h = h
extended-IsOrderedSet s (t ∷ ts) h = extended-IsOrderedSet (added t s) ts (added-IsOrderedSet t s h)

-- The sources of a merged identity are those of either record, in strict order and so each once.
pub merged_sources_lem :
    (left right : List Text)
    → ((k : Text) → contains k (merged_sources left right) ≡ (contains k left || contains k right))
      × IsOrderedSet (merged_sources left right)
unfolding merged_sources contains
merged_sources_lem left right = (
  λ k.
      contains-extended k (extended [] left) right
      ∙ ap (λ b. b || contains k right) (contains-extended k [] left),
  extended-IsOrderedSet (extended [] left) right (extended-IsOrderedSet [] left tt),
)
