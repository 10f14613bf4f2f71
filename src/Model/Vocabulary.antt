-- ===== src/Model/Vocabulary.antt =====
-- An enumeration with its `all` and its `as_str`, as those of crates/brolga-model are, and a
-- `BTreeSet` of its variants as the list of them in the derived order.
use mathlib.Core.List.{Memᴰ}
use brolga.Prelude.{
  ℕ, zero, suc, ◌≡◌, sym, ap, ◌∙◌, inl, inr, ◌⊎◌, ◌↔◌, Option, some, none, List, [], ◌∷◌, Text,
  text_eq, text_eq_iff, ltb, ◌==◌, if◌then◌else◌, arith, Bool-cases, Memᴰ-cons, subst,
}

abbrev pub find_named {ℓ} : {A : Type ℓ} → (A → Text) → Text → List A → Option A
find_named as_str name [] = none
find_named as_str name (a ∷ s) =
    let rest = find_named as_str name s in if text_eq (as_str a) name then some a else rest

abbrev pub nth {ℓ} : {A : Type ℓ} → List A → ℕ → Option A
nth [] n = none
nth (a ∷ s) zero = some a
nth (a ∷ s) (suc n) = nth s n

-- `named` and `ranked` say that no two variants share a name or a place.
pub record Vocabulary (A : Type 0) : Type 0 where
  pub all : List A
  pub as_str : A → Text
  pub rank : A → ℕ
  pub named : (a : A) → find_named as_str (as_str a) all ≡ some a
  pub ranked : (a : A) → nth all (rank a) ≡ some a

module _ {A : Type 0} (v : Vocabulary A) where
  -- `all().iter().copied().find(|a| a.as_str() == name)`
  unfoldable pub lookup : Text → Option A
  lookup name = find_named v.as_str name v.all

  unfoldable pub set_insert : A → List A → List A
  set_insert a [] = a ∷ []
  set_insert a (b ∷ s) =
      let rest = set_insert a s in
      if v.rank a == v.rank b
      then b ∷ s
      else if ltb (v.rank a) (v.rank b)
      then a ∷ b ∷ s
      else b ∷ rest

  unfoldable pub set_extend : List A → List A → List A
  set_extend s [] = s
  set_extend s (a ∷ t) = set_extend (set_insert a s) t

  found-name :
      (name : Text) (a : A) (s : List A) → find_named v.as_str name s ≡ some a → v.as_str a ≡ name
  found-name name a [] h = cc
  found-name name a (b ∷ s) h = elim (Bool-cases (text_eq (v.as_str b) name)) [
    | inl q ↦ ap v.as_str (sym (ground (arith, rw q at h))) ∙ (text_eq_iff (v.as_str b) name).0 q
    | inr q ↦ found-name name a s (rw q at h)
  ]

  -- A name finds the variant that is spelled so.
  pub lookup_iff : (name : Text) (a : A) → (lookup name ≡ some a) ↔ (v.as_str a ≡ name)
  unfolding lookup
  lookup_iff name a = (
    found-name name a v.all,
    λ e. subst (λ n. find_named v.as_str n v.all ≡ some a) e (v.named a),
  )

  rank-injective : (a b : A) → v.rank a ≡ v.rank b → a ≡ b
  rank-injective a b h =
      let e : some a ≡ some b = sym (v.ranked a) ∙ ap (nth v.all) h ∙ v.ranked b in
      ground (arith, e)

  mem-set_insert : (x a : A) (s : List A) → Memᴰ x (set_insert a s) ↔ ((x ≡ a) ⊎ Memᴰ x s)
  unfolding set_insert
  mem-set_insert x a [] = Memᴰ-cons x a []
  mem-set_insert x a (b ∷ s) = elim (Bool-cases (v.rank a == v.rank b)) [
    | inl q ↦
        let e : a ≡ b = rank-injective a b (ground (arith, q)) in
        rw q (ground (arith, e, Memᴰ-cons x b s))
    | inr q ↦ elim (Bool-cases (ltb (v.rank a) (v.rank b))) [
      | inl p ↦ rw (q, p) (ground (arith, Memᴰ-cons x a (b ∷ s)))
      | inr p ↦
          rw (q, p)
            (ground (arith, Memᴰ-cons x b (set_insert a s), Memᴰ-cons x b s, mem-set_insert x a s))
    ]
  ]

  pub mem-set_extend : (x : A) (s t : List A) → Memᴰ x (set_extend s t) ↔ (Memᴰ x s ⊎ Memᴰ x t)
  unfolding set_extend
  mem-set_extend x s [] = (λ i. inl i, λ o. elim o [ inl i ↦ i | inr i ↦ elim i [ ] ])
  mem-set_extend x s (a ∷ t) =
      ground (arith, mem-set_extend x (set_insert a s) t, mem-set_insert x a s, Memᴰ-cons x a t)
