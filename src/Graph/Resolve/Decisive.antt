-- ===== src/Graph/Resolve/Decisive.antt =====
-- Which signals of crates/brolga-graph/src/resolve.rs are decisive, and what they rest on.
use brolga.Prelude.{
  ◌≡◌, ◌↔◌, refl, ap, ◌∙◌, ◌⊎◌, inl, inr, Text, text_eq, text_eq_iff, true, false, ◌||◌, Option,
  some, none, List, [], ◌∷◌, ◌++◌, arith, Bool-cases,
}
use brolga.Prelude.TextMap.{TextMap, get}
use brolga.Graph.Resolve.{ResolutionState, is_alias, is_same}
use brolga.Graph.Resolve.Signals.{
  Characters, can_merge_alone, MatchSignal, ResolvableRecord, identifier_signals, external_signals,
  alias_signals, name_signals,
}
use brolga.Graph.Resolve.Resolver.{place, sorted, any_decisive, signals_of}

any_decisive-place :
    (a : MatchSignal) (bs : List MatchSignal)
    → any_decisive (place a bs) ≡ (can_merge_alone a.strength || any_decisive bs)
unfolding any_decisive place
any_decisive-place a [] = refl
any_decisive-place a (b ∷ bs) = ground (arith, any_decisive-place a bs)

any_decisive-sorted : (l : List MatchSignal) → any_decisive (sorted l) ≡ any_decisive l
unfolding any_decisive sorted
any_decisive-sorted [] = refl
any_decisive-sorted (a ∷ l) = ground (arith, any_decisive-place a (sorted l), any_decisive-sorted l)

any_decisive-append :
    (l m : List MatchSignal) → any_decisive (l ++ m) ≡ (any_decisive l || any_decisive m)
unfolding any_decisive
any_decisive-append [] m = refl
any_decisive-append (a ∷ l) m = ground (arith, any_decisive-append l m)

any_decisive-four :
    (i e a n : List MatchSignal)
    → any_decisive (sorted (i ++ e ++ a ++ n))
      ≡ (any_decisive i || (any_decisive e || (any_decisive a || any_decisive n)))
any_decisive-four i e a n = ground (
  arith,
  any_decisive-sorted (i ++ e ++ a ++ n),
  any_decisive-append (i ++ e ++ a) n,
  any_decisive-append (i ++ e) a,
  any_decisive-append i e,
)

-- Each key has one entry, as in a `BTreeMap`.
abbrev pub IsMap : TextMap Text → Type 0
IsMap [] = Unit
IsMap ((k, v) ∷ m) = (get k m ≡ none) × IsMap m

-- Two maps agree on some key.
abbrev pub Shared : TextMap Text → TextMap Text → Type 0
Shared m n = (k : Text) × (v : Text) × (get k m ≡ some v) × (get k n ≡ some v)

-- What identifies two records: their own identifier, an external one, or a declared alias.
abbrev pub Identified : ResolutionState → ResolvableRecord → ResolvableRecord → Type 0
Identified s l r =
    (l.id ≡ r.id) ⊎ (Shared l.external_ids r.external_ids ⊎ (is_alias s l.id r.id ≡ true))

is_same_iff : (o : Option Text) (t : Text) → (is_same o t ≡ true) ↔ (o ≡ some t)
is_same_iff none t = (λ h. cc, λ h. cc)
is_same_iff (some w) t =
    (λ h. ap some ((text_eq_iff w t).0 h), λ h. ground (arith, text_eq_iff w t))

module _ (u : Characters) where
  any_decisive-name : (l r : ResolvableRecord) → any_decisive (name_signals u l r) ≡ false
  unfolding any_decisive name_signals can_merge_alone
  any_decisive-name l r = ground arith

  any_decisive-identifier :
      (l r : ResolvableRecord) → any_decisive (identifier_signals u l r) ≡ text_eq l.id r.id
  unfolding any_decisive identifier_signals can_merge_alone
  any_decisive-identifier l r = ground arith

  any_decisive-alias :
      (s : ResolutionState) (l r : ResolvableRecord)
      → any_decisive (alias_signals u s l r) ≡ is_alias s l.id r.id
  unfolding any_decisive alias_signals can_merge_alone
  any_decisive-alias s l r = ground arith

  external-Shared :
      (m n : TextMap Text) → IsMap m → any_decisive (external_signals u m n) ≡ true → Shared m n
  unfolding any_decisive external_signals get
  external-Shared [] n w h = absurd (ground arith)
  external-Shared ((k, v) ∷ m) n (new, w) h = elim (Bool-cases (is_same (get k n) v)) [
    | inl q ↦ (k, v, rw ((text_eq_iff k k).1 refl) refl, (is_same_iff (get k n) v).0 q)
    | inr q ↦
        let (j, x, e, e') = external-Shared m n w (ground arith) in
        (j, x, ground (arith, text_eq_iff j k, new, e), e')
  ]

  Shared-external :
      (m n : TextMap Text) (k v : Text)
      → get k m ≡ some v
      → get k n ≡ some v
      → any_decisive (external_signals u m n) ≡ true
  unfolding any_decisive external_signals get can_merge_alone
  Shared-external [] n k v e e' = absurd (ground arith)
  Shared-external ((j, x) ∷ m) n k v e e' =
      ground (arith, text_eq_iff k j, is_same_iff (get j n) x, Shared-external m n k v, e, e')

  any_decisive-signals :
      (s : ResolutionState) (l r : ResolvableRecord)
      → any_decisive (signals_of u s l r) ≡ (
          text_eq l.id r.id
          || (any_decisive (external_signals u l.external_ids r.external_ids)
              || is_alias s l.id r.id))
  unfolding signals_of
  any_decisive-signals s l r =
      any_decisive-four (identifier_signals u l r)
        (external_signals u l.external_ids r.external_ids) (alias_signals u s l r)
        (name_signals u l r)
      ∙ rw (any_decisive-identifier l r, any_decisive-alias s l r, any_decisive-name l r) ground
          arith

  pub decisive_iff :
      (s : ResolutionState) (l r : ResolvableRecord)
      → IsMap l.external_ids
      → (any_decisive (signals_of u s l r) ≡ true) ↔ Identified s l r
  decisive_iff s l r w = (to, from)
    where
      to : any_decisive (signals_of u s l r) ≡ true → Identified s l r
      to h = elim (Bool-cases (text_eq l.id r.id)) [
        | inl q ↦ inl ((text_eq_iff l.id r.id).0 q)
        | inr q ↦ inr (elim (Bool-cases (is_alias s l.id r.id)) [
          | inl q' ↦ inr q'
          | inr q' ↦ inl (
              external-Shared l.external_ids r.external_ids w
                (ground (arith, any_decisive-signals s l r)))
        ])
      ]

      from : Identified s l r → any_decisive (signals_of u s l r) ≡ true
      from (inl e) = ground (arith, any_decisive-signals s l r, (text_eq_iff l.id r.id).1 e)
      from (inr (inl (k, v, e, e'))) = ground (
        arith,
        any_decisive-signals s l r,
        Shared-external l.external_ids r.external_ids k v e e',
      )
      from (inr (inr a)) = ground (arith, any_decisive-signals s l r)
