-- ===== src/Graph/Rank/Sorting.antt =====
-- `sort_by` and `sort`, which are stable: an insertion before the first element that does not come
-- before what is inserted.
use brolga.Prelude.{
  All, subst, ◌≡◌, refl, sym, inl, inr, Bool, true, false, List, [], ◌∷◌, if◌then◌else◌, Bool-cases,
}
use mathlib.Core.List.{Perm, Memᴰ}
use mathlib.Core.List.Perm

module _ {A : Type 0} (le : A → A → Bool) where
  unfoldable pub place : A → List A → List A
  place a [] = a ∷ []
  place a (b ∷ bs) = let rest = place a bs in if le a b then a ∷ b ∷ bs else b ∷ rest

  unfoldable pub sort_by : List A → List A
  sort_by [] = []
  sort_by (a ∷ rest) = place a (sort_by rest)

  place-Perm : (a : A) (s : List A) → Perm (a ∷ s) (place a s)
  unfolding place
  place-Perm a [] = Perm.refl (a ∷ [])
  place-Perm a (b ∷ s) = elim (Bool-cases (le a b)) [
    | inl q ↦ rw q (Perm.refl (a ∷ b ∷ s))
    | inr q ↦ rw q (Perm.trans (Perm.swap b a s) (Perm.cons b (place-Perm a s)))
  ]

  pub sort_by-Perm : (s : List A) → Perm s (sort_by s)
  unfolding sort_by
  sort_by-Perm [] = Perm.refl []
  sort_by-Perm (a ∷ s) = Perm.trans (Perm.cons a (sort_by-Perm s)) (place-Perm a (sort_by s))

  -- Each comes before the next.
  abbrev pub Sorted : List A → Type 0
  Sorted [] = Unit
  Sorted (a ∷ []) = Unit
  Sorted (a ∷ b ∷ s) = (le a b ≡ true) × Sorted (b ∷ s)

  module _ (total : (a b : A) → le a b ≡ false → le b a ≡ true) where
    place-Sorted : (a : A) (s : List A) → Sorted s → Sorted (place a s)
    unfolding place
    place-Sorted a [] h = tt
    place-Sorted a (b ∷ []) h = elim (Bool-cases (le a b)) [
      | inl q ↦ rw q (q, tt)
      | inr q ↦ rw q (total a b q, tt)
    ]
    place-Sorted a (b ∷ d ∷ s) h = elim (Bool-cases (le a b)) [
      | inl q ↦ rw q (q, h)
      | inr q ↦ elim (Bool-cases (le a d)) [
        | inl k ↦ rw (q, k) (total a b q, (k, h.1))
        | inr k ↦ rw (q, k) (h.0, rw (place, k) at (place-Sorted a (d ∷ s) h.1))
      ]
    ]

    pub sort_by-Sorted : (s : List A) → Sorted (sort_by s)
    unfolding sort_by
    sort_by-Sorted [] = tt
    sort_by-Sorted (a ∷ s) = place-Sorted a (sort_by s) (sort_by-Sorted s)

  module _ {κ} (P : A → Type κ) where
    place-All : (a : A) (s : List A) → P a → All P s → All P (place a s)
    unfolding place
    place-All a [] p h = (p, tt)
    place-All a (b ∷ s) p h = elim (Bool-cases (le a b)) [
      | inl q ↦ rw q (p, h)
      | inr q ↦ rw q (h.0, place-All a s p h.1)
    ]

    pub sort_by-All : (s : List A) → All P s → All P (sort_by s)
    unfolding sort_by
    sort_by-All [] h = tt
    sort_by-All (a ∷ s) h = place-All a (sort_by s) h.0 (sort_by-All s h.1)

  place-head : (a : A) (s : List A) → Memᴰ a (place a s)
  unfolding place
  place-head a [] = Memᴰ.head refl
  place-head a (b ∷ s) = elim (Bool-cases (le a b)) [
    | inl q ↦ rw q (Memᴰ.head refl)
    | inr q ↦ rw q (Memᴰ.tail (place-head a s))
  ]

  place-tail : (x a : A) (s : List A) → Memᴰ x s → Memᴰ x (place a s)
  unfolding place
  place-tail x a [] m = elim m [ ]
  place-tail x a (b ∷ s) (Memᴰ.head e) = elim (Bool-cases (le a b)) [
    | inl q ↦ rw q (Memᴰ.tail (Memᴰ.head e))
    | inr q ↦ rw q (Memᴰ.head e)
  ]
  place-tail x a (b ∷ s) (Memᴰ.tail m) = elim (Bool-cases (le a b)) [
    | inl q ↦ rw q (Memᴰ.tail (Memᴰ.tail m))
    | inr q ↦ rw q (Memᴰ.tail (place-tail x a s m))
  ]

  pub sort_by-Memᴰ : (x : A) (s : List A) → Memᴰ x s → Memᴰ x (sort_by s)
  unfolding sort_by
  sort_by-Memᴰ x [] m = elim m [ ]
  sort_by-Memᴰ x (a ∷ s) (Memᴰ.head e) =
      subst (λ y. Memᴰ y (place a (sort_by s))) (sym e) (place-head a (sort_by s))
  sort_by-Memᴰ x (a ∷ s) (Memᴰ.tail m) = place-tail x a (sort_by s) (sort_by-Memᴰ x s m)
