-- ===== src/Graph/Resolve/Pinned.antt =====
-- What a pin protects an identity from in crates/brolga-graph/src/resolve.rs.
use brolga.Prelude.{
  ℕ, ◌≡◌, ◌≢◌, refl, sym, ap, ◌∙◌, inl, inr, Text, text_eq, text_eq_iff, text_leb, Bool, true, List,
  [], ◌∷◌, arith, Bool-cases, subst, All, none,
}
use brolga.Prelude.TextMap.{get, get-insert, get-remove}
use brolga.Graph.Resolve.{
  OperationKind, merge, split, reject, alias, pin, ManualOperation, Result-cases, ok, ok-injective,
  ResolutionState, ordered, perform, merged, apply, replay_from, is_pinned, contains, without,
  unwrap_or_default, canonical_identity,
}
use brolga.Graph.Resolve.Chain.{canonical_of_root}
use brolga.Graph.Resolve.Merging.{apply-ok, merged-merges}

-- An operation withdraws the pin of an identity.
abbrev pub Unpins : ManualOperation → Text → Type 0
Unpins o k = (o.kind ≡ pin) × (o.withdraws ≡ true) × (o.left ≡ k)

-- An identity is pinned, and merged into none.
abbrev pub IsOwn : ResolutionState → Text → Type 0
IsOwn s k = (contains k s.pins ≡ true) × (get k s.merges ≡ none)

contains-without :
    (k j : Text) (s : List Text) → k ≢ j → contains k s ≡ true → contains k (without j s) ≡ true
unfolding contains without
contains-without k j [] n h = h
contains-without k j (i ∷ s) n h =
    ground (arith, contains-without k j s n, text_eq_iff k i, text_eq_iff j i)

-- A merge that was not refused names no pinned identity.
merged-contains :
    (s : ResolutionState) (a b k : Text) {t : ResolutionState}
    → merged s a b ≡ ok t
    → contains k s.pins ≡ true
    → ((ordered a b).1 ≢ k) × (t.pins ≡ s.pins)
unfolding merged ordered
merged-contains s a b k h c = elim (Bool-cases (text_leb a b)) [
  | inl q ↦ (λ e. ground arith, ground arith)
  | inr q ↦ (λ e. ground arith, ground arith)
]

perform-IsOwn :
    (s : ResolutionState) (o : ManualOperation) (kind : OperationKind) (k : Text)
    {t : ResolutionState}
    → o.kind ≡ kind
    → ¬ Unpins o k
    → perform s o kind ≡ ok t
    → IsOwn s k
    → IsOwn t k
unfolding perform contains
perform-IsOwn s o merge k e n h (c, g) =
    let b = unwrap_or_default o.right in
    let (other, pins) = merged-contains s o.left b k h c in
    let m = merged-merges s o.left b h in
    (
      ap (λ x. contains k x) pins ∙ c,
      ap (λ x. get k x) m
          ∙ ground (
            arith,
            get-insert k (ordered o.left b).1 (ordered o.left b).0 s.merges,
            text_eq_iff k (ordered o.left b).1,
          ),
    )
perform-IsOwn s o split k e n h (c, g) =
    ground (arith, get-remove k (ordered o.left (unwrap_or_default o.right)).1 s.merges)
perform-IsOwn s o reject k e n h (c, g) = ground arith
perform-IsOwn s o alias k e n h (c, g) = ground arith
perform-IsOwn s o pin k e n h (c, g) = elim (Bool-cases o.withdraws) [
  | inl w ↦ ground (arith, contains-without k o.left s.pins (λ x. n (e, w, sym x)))
  | inr w ↦ elim (Bool-cases (contains o.left s.pins)) [
    | inl q ↦ ground arith
    | inr q ↦ elim (Bool-cases (text_eq k o.left)) [ inl j ↦ ground arith | inr j ↦ ground arith ]
  ]
]

module _ (is_whitespace : ℕ → Bool) where
  apply-IsOwn :
      (s : ResolutionState) (o : ManualOperation) (k : Text) {t : ResolutionState}
      → ¬ Unpins o k
      → apply is_whitespace s o ≡ ok t
      → IsOwn s k
      → IsOwn t k
  apply-IsOwn s o k n h c =
      let (u, e, r) = apply-ok is_whitespace s o h in
      let (p, g) = perform-IsOwn s o o.kind k refl n e c in
      (ap (λ x. contains k x.pins) r ∙ p, ap (λ x. get k x.merges) r ∙ g)

  stays-IsOwn :
      (s : ResolutionState) (os : List ManualOperation) (k : Text) {t : ResolutionState}
      → All (λ o. ¬ Unpins o k) os
      → replay_from is_whitespace s os ≡ ok t
      → IsOwn s k
      → IsOwn t k
  unfolding replay_from
  stays-IsOwn s [] k n h c = subst (λ x. IsOwn x k) (ok-injective h) c
  stays-IsOwn s (o ∷ os) k (n, ns) h c = elim (Result-cases (apply is_whitespace s o)) [
    | inl (u, e) ↦ stays-IsOwn u os k ns (rw (replay_from, e) at h) (apply-IsOwn s o k n e c)
    | inr (x, e) ↦ absurd (ground arith)
  ]

  -- An identity that is pinned and merged into none stays so, and is its own canonical identity,
  -- after any sequence of applied operations of which none withdraws the pin.
  pub pin_stands :
      (s t : ResolutionState) (os : List ManualOperation) (k : Text)
      → All (λ o. ¬ Unpins o k) os
      → replay_from is_whitespace s os ≡ ok t
      → is_pinned s k ≡ true
      → get k s.merges ≡ none
      → (is_pinned t k ≡ true) × (canonical_identity t k ≡ k)
  unfolding is_pinned
  pin_stands s t os k n h c g =
      let (p, own) = stays-IsOwn s os k n h (c, g) in (p, canonical_of_root t k (inl own))
