-- ===== src/Graph/Resolve/Outcome.antt =====
-- When `Resolver::resolve` of crates/brolga-graph/src/resolve.rs merges a pair.
use brolga.Prelude.{
  ℕ, ◌≡◌, ◌≢◌, ◌↔◌, refl, sym, ap, ◌∙◌, inl, inr, Text, text_eq_iff, text_leb, text_leb_total,
  text_leb_antisymm, Bool, true, false, ◌||◌, List, [], ◌∷◌, arith, if◌then◌else◌, Bool-cases, All,
}
use brolga.Prelude.TextMap.{get}
use brolga.Graph.Resolve.{
  ResolutionState, is_rejected, is_pinned, is_alias, is_same, ManualOperation, ordered, replay_from,
  ok,
}
use brolga.Graph.Resolve.Standing.{ordered_comm, is_rejected_comm, Withdraws, rejection_stands}
use brolga.Graph.Resolve.Signals.{Characters, MatchSignal, ResolvableRecord}
use brolga.Graph.Resolve.Resolver.{
  merged, rejected, any_decisive, outcome_of, signals_of, resolve_ordered, resolve,
}
use brolga.Graph.Resolve.Decisive.{IsMap, Identified, decisive_iff}

is_alias_comm : (s : ResolutionState) (a b : Text) → is_alias s a b ≡ is_alias s b a
unfolding is_alias
is_alias_comm s a b = ap (λ p. is_same (get p.1 s.aliases) p.0) (ordered_comm a b)

module _ (u : Characters) where
  outcome_of_iff :
      (p : Bool) (l : List MatchSignal)
      → (outcome_of p (any_decisive l) l ≡ merged) ↔ ((p ≡ false) × (any_decisive l ≡ true))
  unfolding any_decisive
  outcome_of_iff p [] = (λ h. absurd (ground arith), λ h. absurd (ground arith))
  outcome_of_iff p (a ∷ l) = (λ h. (ground arith, ground arith), λ h. ground arith)

  -- What the decision to merge rests on, whichever record is first.
  abbrev Mergeable : ResolutionState → ResolvableRecord → ResolvableRecord → Type 0
  Mergeable s l r =
      (is_rejected s l.id r.id ≡ false)
      × (is_pinned s l.id ≡ false)
      × (is_pinned s r.id ≡ false)
      × Identified s l r

  ordered_outcome :
      (s : ResolutionState) (l r : ResolvableRecord)
      → (resolve_ordered u s l r).outcome ≡ (
          if is_rejected s l.id r.id
          then rejected
          else outcome_of
              (is_pinned s l.id || is_pinned s r.id)
              (any_decisive (signals_of u s l r))
              (signals_of u s l r))
  unfolding resolve_ordered
  ordered_outcome s l r = elim (Bool-cases (is_rejected s l.id r.id)) [
    | inl q ↦ rw q refl
    | inr q ↦ rw q refl
  ]

  ordered_merged_iff :
      (s : ResolutionState) (l r : ResolvableRecord)
      → IsMap l.external_ids
      → ((resolve_ordered u s l r).outcome ≡ merged) ↔ Mergeable s l r
  ordered_merged_iff s l r w =
      let o = ordered_outcome s l r in
      let (to, from) = outcome_of_iff (is_pinned s l.id || is_pinned s r.id) (signals_of u s l r) in
      let (dto, dfrom) = decisive_iff u s l r w in
      (
        λ h.
            let n : is_rejected s l.id r.id ≡ false = ground (arith, o, h) in
            let (p, d) = to (sym (o ∙ rw n refl) ∙ h) in
            (n, ground (arith, p), ground (arith, p), dto d),
        λ (n, p, q, i). o ∙ rw n refl ∙ from (ground (arith, p, q), dfrom i),
      )

  Mergeable-comm :
      (s : ResolutionState) (l r : ResolvableRecord) → Mergeable s l r → Mergeable s r l
  Mergeable-comm s l r (n, p, q, i) = (is_rejected_comm s r.id l.id ∙ n, q, p, swap i)
    where
      swap : Identified s l r → Identified s r l
      swap (inl e) = inl (sym e)
      swap (inr (inl (k, v, e, e'))) = inr (inl (k, v, e', e))
      swap (inr (inr a)) = inr (inr (is_alias_comm s r.id l.id ∙ a))

  -- Two records resolve to one identity exactly when no rejection of the pair stands, neither is
  -- pinned, and they have the same identifier, an external one in common, or a declared alias: a
  -- resemblance of their names is never enough. The external identifiers of each record are a map.
  pub resolve-merged_iff :
      (s : ResolutionState) (l r : ResolvableRecord)
      → IsMap l.external_ids
      → IsMap r.external_ids
      → ((resolve u s l r).outcome ≡ merged) ↔ (
          (is_rejected s l.id r.id ≡ false)
          × (is_pinned s l.id ≡ false)
          × (is_pinned s r.id ≡ false)
          × Identified s l r)
  unfolding resolve
  resolve-merged_iff s l r w w' = elim (Bool-cases (text_leb l.id r.id)) [
    | inl q ↦ rw q (ordered_merged_iff s l r w)
    | inr q ↦
        let (to, from) = ordered_merged_iff s r l w' in
        rw q (λ h. Mergeable-comm s r l (to h), λ h. from (Mergeable-comm s l r h))
  ]

  -- The conclusion about two records of different identifiers does not depend on which is given first.
  pub resolve_comm :
      (s : ResolutionState) (l r : ResolvableRecord)
      → l.id ≢ r.id
      → resolve u s l r ≡ resolve u s r l
  unfolding resolve
  resolve_comm s l r n = elim (Bool-cases (text_leb l.id r.id)) [
    | inl q ↦
        let q' : text_leb r.id l.id ≡ false =
          ground (arith, text_leb_antisymm l.id r.id q, text_eq_iff l.id r.id) in
        rw (q, q') refl
    | inr q ↦ rw (q, text_leb_total l.id r.id q) refl
  ]

  -- The rejection of a pair, once recorded, is what `resolve` answers for it after any sequence of
  -- applied operations of which none withdraws it, whatever the records have in common.
  pub resolve_rejected :
      (is_whitespace : ℕ → Bool) (s t : ResolutionState) (os : List ManualOperation)
      (l r : ResolvableRecord)
      → All (λ o. ¬ Withdraws o (ordered l.id r.id)) os
      → replay_from is_whitespace s os ≡ ok t
      → is_rejected s l.id r.id ≡ true
      → (resolve u t l r).outcome ≡ rejected
  unfolding resolve
  resolve_rejected is_whitespace s t os l r n h c =
      let (p, q) = rejection_stands is_whitespace s t os l.id r.id n h c in
      elim (Bool-cases (text_leb l.id r.id)) [
        | inl e ↦ rw e (ordered_outcome t l r ∙ rw p refl)
        | inr e ↦ rw e (ordered_outcome t r l ∙ rw q refl)
      ]
