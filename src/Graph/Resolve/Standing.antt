-- ===== src/Graph/Resolve/Standing.antt =====
-- How long a rejection stands in crates/brolga-graph/src/resolve.rs.
use brolga.Prelude.{
  ℕ, ◌≡◌, ◌≢◌, refl, sym, ap, ◌∙◌, inl, inr, Text, text_eq_iff, text_leb, text_leb_total,
  text_leb_antisymm, Bool, true, List, [], ◌∷◌, arith, Bool-cases, All,
}
use brolga.Graph.Resolve.{
  OperationKind, merge, split, reject, alias, pin, ManualOperation, Result-cases, ok, ok-injective,
  ResolutionState, ordered, perform, merged, apply, replay_from, is_rejected, contains_pair,
  without_pair, pair_eq, unwrap_or_default,
}
use brolga.Graph.Resolve.Merging.{apply-ok}

-- An operation withdraws the rejection of a pair.
abbrev pub Withdraws : ManualOperation → Text × Text → Type 0
Withdraws o p =
    (o.kind ≡ reject) × (o.withdraws ≡ true) × (ordered o.left (unwrap_or_default o.right) ≡ p)

pub ordered_comm : (a b : Text) → ordered a b ≡ ordered b a
unfolding ordered
ordered_comm a b = elim (Bool-cases (text_leb a b)) [
  | inl h ↦ elim (Bool-cases (text_leb b a)) [
    | inl h' ↦
        let e : a ≡ b = (text_eq_iff a b).0 (text_leb_antisymm a b h h') in rw (h, h', e) refl
    | inr h' ↦ rw (h, h') refl
  ]
  | inr h ↦ rw (h, text_leb_total a b h) refl
]

pair_eq_iff : (p q : Text × Text) → (pair_eq p q ≡ true → p ≡ q) × (p ≡ q → pair_eq p q ≡ true)
pair_eq_iff (a, b) (c, d) = ground (arith, text_eq_iff a c, text_eq_iff b d)

contains-without_pair :
    (p q : Text × Text) (s : List (Text × Text))
    → p ≢ q
    → contains_pair p s ≡ true
    → contains_pair p (without_pair q s) ≡ true
unfolding contains_pair without_pair
contains-without_pair p q [] n h = h
contains-without_pair p q (r ∷ s) n h =
    ground (arith, contains-without_pair p q s n, pair_eq_iff p r, pair_eq_iff q r)

perform-is_rejected :
    (s : ResolutionState) (o : ManualOperation) (k : OperationKind) (p : Text × Text)
    {t : ResolutionState}
    → o.kind ≡ k
    → ¬ Withdraws o p
    → perform s o k ≡ ok t
    → contains_pair p s.rejections ≡ true
    → contains_pair p t.rejections ≡ true
unfolding perform merged contains_pair
perform-is_rejected s o merge p e n h c = ground arith
perform-is_rejected s o split p e n h c = ground arith
perform-is_rejected s o alias p e n h c = ground arith
perform-is_rejected s o pin p e n h c = ground arith
perform-is_rejected s o reject p e n h c = elim (Bool-cases o.withdraws) [
  | inl w ↦
      let q = ordered o.left (unwrap_or_default o.right) in
      ground (arith, contains-without_pair p q s.rejections (λ x. n (e, w, sym x)))
  | inr w ↦ ground arith
]

pub is_rejected_comm : (s : ResolutionState) (a b : Text) → is_rejected s a b ≡ is_rejected s b a
unfolding is_rejected
is_rejected_comm s a b = ap (λ p. contains_pair p s.rejections) (ordered_comm a b)

module _ (is_whitespace : ℕ → Bool) where
  apply-is_rejected :
      (s : ResolutionState) (o : ManualOperation) (p : Text × Text) {t : ResolutionState}
      → ¬ Withdraws o p
      → apply is_whitespace s o ≡ ok t
      → contains_pair p s.rejections ≡ true
      → contains_pair p t.rejections ≡ true
  apply-is_rejected s o p n h c =
      let (u, e, r) = apply-ok is_whitespace s o h in
      ap (λ x. contains_pair p x.rejections) r ∙ perform-is_rejected s o o.kind p refl n e c

  stays-rejected :
      (s : ResolutionState) (os : List ManualOperation) (p : Text × Text) {t : ResolutionState}
      → All (λ o. ¬ Withdraws o p) os
      → replay_from is_whitespace s os ≡ ok t
      → contains_pair p s.rejections ≡ true
      → contains_pair p t.rejections ≡ true
  unfolding replay_from
  stays-rejected s [] p n h c = ap (λ x. contains_pair p x.rejections) (sym (ok-injective h)) ∙ c
  stays-rejected s (o ∷ os) p (n, ns) h c = elim (Result-cases (apply is_whitespace s o)) [
    | inl (u, e) ↦
        stays-rejected u os p ns (rw (replay_from, e) at h) (apply-is_rejected s o p n e c)
    | inr (x, e) ↦ absurd (ground arith)
  ]

  -- The rejection of a pair, once recorded, stands after any sequence of applied operations of which
  -- none withdraws it, whichever way around the pair is asked for.
  pub rejection_stands :
      (s t : ResolutionState) (os : List ManualOperation) (a b : Text)
      → All (λ o. ¬ Withdraws o (ordered a b)) os
      → replay_from is_whitespace s os ≡ ok t
      → is_rejected s a b ≡ true
      → (is_rejected t a b ≡ true) × (is_rejected t b a ≡ true)
  unfolding is_rejected
  rejection_stands s t os a b n h c =
      let r = stays-rejected s os (ordered a b) n h c in (r, is_rejected_comm t b a ∙ r)
