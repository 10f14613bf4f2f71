-- ===== src/Graph/Resolve/Scores.antt =====
-- The scores that `Resolver::resolve` of crates/brolga-graph/src/resolve.rs gives.
use Prim.Native.Nat.{min}
use brolga.Prelude.{
  ℕ, ◌≤◌, ◌≡◌, refl, inl, inr, Text, text_eq, text_leb, Bool, true, false, ◌||◌, ◌&&◌, List, [],
  ◌∷◌, ◌++◌, arith, if◌then◌else◌, Bool-cases, All, ◌==◌, subst,
}
use brolga.Prelude.TextMap.{TextMap, get}
use brolga.Graph.Resolve.{ResolutionState, is_rejected, is_pinned, is_alias, is_same}
use brolga.Graph.Resolve.Signals.{
  Characters, can_merge_alone, MatchSignal, ResolvableRecord, identifier_signals, external_signals,
  alias_signals, name_signals, normalised, shares_a_token,
}
use brolga.Graph.Resolve.Resolver.{
  ResolutionOutcome, distinct, candidate, merged, rejected, pinned, comes_first, place, sorted,
  greatest, any_decisive, outcome_of, signals_of, resolve_ordered, resolve,
}

-- The scores that an outcome can have.
abbrev pub Banded : ResolutionOutcome → ℕ → Type 0
Banded distinct n = n ≡ 0
Banded rejected n = n ≡ 0
Banded candidate n = (25 ≤ n) × (n ≤ 60)
Banded merged n = (90 ≤ n) × (n ≤ 100)
Banded pinned n = (25 ≤ n) × (n ≤ 100)

-- The scores that a signal can have.
abbrev Weighs : MatchSignal → Type 0
Weighs a = Banded (if can_merge_alone a.strength then merged else candidate) a.score

All-append : (l m : List MatchSignal) → All Weighs l → All Weighs m → All Weighs (l ++ m)
All-append [] m h k = k
All-append (a ∷ l) m (w, h) k = (w, All-append l m h k)

All-place :
    (a : MatchSignal) (l : List MatchSignal) → Weighs a → All Weighs l → All Weighs (place a l)
unfolding place
All-place a [] w h = (w, tt)
All-place a (b ∷ l) w (v, h) = elim (Bool-cases (comes_first a b)) [
  | inl q ↦ rw q (w, (v, h))
  | inr q ↦ rw q (v, All-place a l w h)
]

All-sorted : (l : List MatchSignal) → All Weighs l → All Weighs (sorted l)
unfolding sorted
All-sorted [] h = tt
All-sorted (a ∷ l) (w, h) = All-place a (sorted l) w (All-sorted l h)

module _ (u : Characters) where
  All-external : (m n : TextMap Text) → All Weighs (external_signals u m n)
  unfolding external_signals can_merge_alone
  All-external [] n = tt
  All-external ((k, v) ∷ m) n = elim (Bool-cases (is_same (get k n) v)) [
    | inl q ↦ rw q ((omega arith, omega arith), All-external m n)
    | inr q ↦ rw q (All-external m n)
  ]

  All-identifier : (l r : ResolvableRecord) → All Weighs (identifier_signals u l r)
  unfolding identifier_signals can_merge_alone
  All-identifier l r = elim (Bool-cases (text_eq l.id r.id)) [
    | inl q ↦ rw q ((omega arith, omega arith), tt)
    | inr q ↦ rw q tt
  ]

  All-alias : (s : ResolutionState) (l r : ResolvableRecord) → All Weighs (alias_signals u s l r)
  unfolding alias_signals can_merge_alone
  All-alias s l r = elim (Bool-cases (is_alias s l.id r.id)) [
    | inl q ↦ rw q ((omega arith, omega arith), tt)
    | inr q ↦ rw q tt
  ]

  All-name : (l r : ResolvableRecord) → All Weighs (name_signals u l r)
  unfolding name_signals can_merge_alone
  All-name l r =
      elim (Bool-cases (l.kind == r.kind && text_eq (normalised u l.name) (normalised u r.name))) [
        | inl q ↦ rw q ((omega arith, omega arith), tt)
        | inr q ↦ elim (Bool-cases (l.kind == r.kind && shares_a_token u l.name r.name)) [
          | inl q' ↦ rw (q, q') ((omega arith, omega arith), tt)
          | inr q' ↦ rw (q, q') tt
        ]
      ]

  All-signals : (s : ResolutionState) (l r : ResolvableRecord) → All Weighs (signals_of u s l r)
  unfolding signals_of
  All-signals s l r =
      let i = identifier_signals u l r in
      let e = external_signals u l.external_ids r.external_ids in
      let a = alias_signals u s l r in
      All-sorted (i ++ e ++ a ++ name_signals u l r) (
        All-append (i ++ e ++ a) (name_signals u l r)
          (All-append (i ++ e) a
            (All-append i e (All-identifier l r) (All-external l.external_ids r.external_ids))
            (All-alias s l r))
          (All-name l r))

-- The three facts on one signal that its band comes to.
Weighs-score :
    (a : MatchSignal)
    → Weighs a
    → (25 ≤ a.score)
      × (a.score ≤ 100)
      × (can_merge_alone a.strength ≡ true → 90 ≤ a.score)
      × (can_merge_alone a.strength ≡ false → a.score ≤ 60)
Weighs-score a w = elim (Bool-cases (can_merge_alone a.strength)) [
  | inl q ↦
      let (lo, hi) : (90 ≤ a.score) × (a.score ≤ 100) =
        subst (λ b. Banded (if b then merged else candidate) a.score) q w in
      (omega arith, hi, λ e. lo, λ e. ground arith)
  | inr q ↦
      let (lo, hi) : (25 ≤ a.score) × (a.score ≤ 60) =
        subst (λ b. Banded (if b then merged else candidate) a.score) q w in
      (lo, omega arith, λ e. ground arith, λ e. hi)
]

greatest-score :
    (l : List MatchSignal)
    → All Weighs l
    → (greatest l ≤ 100)
      × (any_decisive l ≡ true → 90 ≤ greatest l)
      × (any_decisive l ≡ false → greatest l ≤ 60)
unfolding greatest any_decisive
greatest-score [] h = (omega arith, λ e. ground arith, λ e. omega arith)
greatest-score (a ∷ l) (w, h) =
    let (lo, hi, above, below) = Weighs-score a w in
    let (hi', above', below') = greatest-score l h in
    (ground arith, λ e. ground arith, λ e. ground arith)

greatest-Banded :
    (p : Bool) (l : List MatchSignal)
    → All Weighs l
    → Banded (outcome_of p (any_decisive l) l) (min 100 (greatest l))
unfolding greatest
greatest-Banded p [] h = omega arith
greatest-Banded true (a ∷ l) h =
    let lo : 25 ≤ a.score = (Weighs-score a h.0).0 in (omega arith, omega arith)
greatest-Banded false (a ∷ l) h =
    let (hi, above, below) = greatest-score (a ∷ l) h in
    let lo : 25 ≤ a.score = (Weighs-score a h.0).0 in
    elim (Bool-cases (any_decisive (a ∷ l))) [
      | inl q ↦ rw q (ground (arith, above q), omega arith)
      | inr q ↦ rw q (omega arith, ground (arith, below q))
    ]

module _ (u : Characters) (s : ResolutionState) where
  ordered-Banded :
      (l r : ResolvableRecord)
      → Banded (resolve_ordered u s l r).outcome (resolve_ordered u s l r).score
  unfolding resolve_ordered
  ordered-Banded l r = elim (Bool-cases (is_rejected s l.id r.id)) [
    | inl q ↦ rw q refl
    | inr q ↦ rw q (
        greatest-Banded (is_pinned s l.id || is_pinned s r.id) (signals_of u s l r)
          (All-signals u s l r))
  ]

  -- The score is 0 for a pair that is distinct or rejected, from 90 to 100 for one that is merged,
  -- from 25 to 60 for one that waits for review, and from 25 to 100 for one held back by a pin.
  resolve-Banded :
      (l r : ResolvableRecord) → Banded (resolve u s l r).outcome (resolve u s l r).score
  unfolding resolve
  resolve-Banded l r = elim (Bool-cases (text_leb l.id r.id)) [
    | inl q ↦ rw q (ordered-Banded l r)
    | inr q ↦ rw q (ordered-Banded r l)
  ]
