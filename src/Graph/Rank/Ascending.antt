-- ===== src/Graph/Rank/Ascending.antt =====
-- A `BTreeMap<String, V>` keeps its keys in order, each once.
use mathlib.Core.List.{Memᴰ}
use brolga.Prelude.{
  ◌≡◌, sym, ap, subst, inl, inr, true, false, some, [], ◌∷◌, Text, text_eq, text_eq_iff, text_leb,
  text_leb_trans, text_leb_antisymm, text_leb_total, All, All-Memᴰ, Bool-cases, arith,
}
use brolga.Prelude.TextMap.{TextMap, get, insert}

module _ {V : Type 0} where
  abbrev pub Above : Text → TextMap V → Type 0
  Above k = All (λ e. (text_leb k e.0 ≡ true) × (text_eq k e.0 ≡ false))

  -- The keys ascend, so that none stands twice.
  abbrev pub Ascending : TextMap V → Type 0
  Ascending [] = Unit
  Ascending ((k, v) ∷ m) = Above k m × Ascending m

  Above-Above :
      (j k : Text) (m : TextMap V)
      → text_leb k j ≡ true
      → text_eq k j ≡ false
      → Above j m
      → Above k m
  Above-Above j k [] h n a = tt
  Above-Above j k ((i, v) ∷ m) h n ((le, ne), rest) =
      ((text_leb_trans k j i h le, differs), Above-Above j k m h n rest)
    where
      differs : text_eq k i ≡ false
      differs = elim (Bool-cases (text_eq k i)) [
        | inl q ↦
            let same : k ≡ i = (text_eq_iff k i).0 q in
            let back = text_leb_antisymm j i le (subst (λ x. text_leb x j ≡ true) same h) in
            cc (back, ne)
        | inr q ↦ q
      ]

  insert-Above :
      (i k : Text) (v : V) (m : TextMap V)
      → text_leb i k ≡ true
      → text_eq i k ≡ false
      → Above i m
      → Above i (insert k v m)
  unfolding insert
  insert-Above i k v [] h n a = ((h, n), tt)
  insert-Above i k v ((j, w) ∷ m) h n (a, rest) = elim (Bool-cases (text_eq k j)) [
    | inl q ↦ rw q ((h, n), rest)
    | inr q ↦ elim (Bool-cases (text_leb k j)) [
      | inl l ↦ rw (q, l) ((h, n), (a, rest))
      | inr l ↦ rw (q, l) (a, insert-Above i k v m h n rest)
    ]
  ]

  pub insert-Ascending : (k : Text) (v : V) (m : TextMap V) → Ascending m → Ascending (insert k v m)
  unfolding insert
  insert-Ascending k v [] a = (tt, tt)
  insert-Ascending k v ((j, w) ∷ m) (a, rest) = elim (Bool-cases (text_eq k j)) [
    | inl q ↦
        let same : k ≡ j = (text_eq_iff k j).0 q in rw q (subst (λ x. Above x m) (sym same) a, rest)
    | inr q ↦ elim (Bool-cases (text_leb k j)) [
      | inl l ↦ rw (q, l) (((l, q), Above-Above j k m l q a), (a, rest))
      | inr l ↦
          rw (q, l)
            (
              insert-Above j k v m (text_leb_total k j l)
                  (ground (arith, text_eq_iff j k, text_eq_iff k j)) a,
              insert-Ascending k v m rest,
            )
    ]
  ]

  -- In such a map, an entry is what its key finds.
  pub get-entry :
      (k : Text) (v : V) (m : TextMap V) → Ascending m → Memᴰ (k, v) m → get k m ≡ some v
  unfolding get
  get-entry k v [] a h = elim h [ ]
  get-entry k v ((j, w) ∷ m) a (Memᴰ.head e) =
      let key : k ≡ j = ap (λ (x : Text × V). x.0) e in
      let value : v ≡ w = ap (λ (x : Text × V). x.1) e in
      rw ((text_eq_iff k j).1 key) (ap some (sym value))
  get-entry k v ((j, w) ∷ m) (a, rest) (Memᴰ.tail h) =
      let above =
        All-Memᴰ (λ (e : Text × V). (text_leb j e.0 ≡ true) × (text_eq j e.0 ≡ false)) m a h in
      let differs : text_eq k j ≡ false =
        ground (arith, above.1, text_eq_iff k j, text_eq_iff j k) in
      rw differs (get-entry k v m rest h)

  module _ (P : Text × V → Type 0) where
    pub insert-All : (k : Text) (v : V) (m : TextMap V) → P (k, v) → All P m → All P (insert k v m)
    unfolding insert
    insert-All k v [] p h = (p, tt)
    insert-All k v ((j, w) ∷ m) p h = elim (Bool-cases (text_eq k j)) [
      | inl q ↦ rw q (p, h.1)
      | inr q ↦ elim (Bool-cases (text_leb k j)) [
        | inl l ↦ rw (q, l) (p, h)
        | inr l ↦ rw (q, l) (h.0, insert-All k v m p h.1)
      ]
    ]

    pub get-All : (k : Text) (v : V) (m : TextMap V) → All P m → get k m ≡ some v → P (k, v)
    unfolding get
    get-All k v [] h e = cc
    get-All k v ((j, w) ∷ m) h e = elim (Bool-cases (text_eq k j)) [
      | inl q ↦
          let key : j ≡ k = sym ((text_eq_iff k j).0 q) in
          let value : w ≡ v = ground (arith, rw q at e) in subst P (cc (key, value)) h.0
      | inr q ↦ get-All k v m h.1 (rw q at e)
    ]
