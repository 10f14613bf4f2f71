-- ===== src/Graph/Budget/Loop.antt =====
-- What the loop of `fit` in crates/brolga-graph/src/budget.rs does to its variables.
use brolga.Prelude.{
  ℕ, suc, ◌≤◌, ◌≡◌, ap, ◌∙◌, ◌⊎◌, inl, inr, String, true, false, Option, none, some, List, [], ◌∷◌,
  ◌++◌, map, arith, Option-cases, Bool-cases, subst, All, length,
}
use mathlib.Core.List.{append_assoc, append-nil, Perm, perm_middle}
use mathlib.Core.List.Perm
use brolga.Graph.Budget.{
  Dimension, time, Limits, TokenEstimator, Result-cases, ok-injective, ok, Item, Spend, Fitted,
}
use brolga.Graph.Budget.Fit.{
  Fitting, start, lookup, exceeds, step, rounds, missed, admit, weigh, ordered, fit, select, report,
}

abbrev pub AtMost : ℕ → Option ℕ → Type 0
AtMost n none = Unit {0}
AtMost n (some limit) = n ≤ limit

-- What is used lies within the limits.
pub record Within (l : Limits) (s : Fitting) : Type 0 where
  pub within_tokens : AtMost s.used_tokens l.tokens
  pub within_bytes : AtMost s.used_bytes l.bytes
  pub within_objects : AtMost s.used_objects l.objects
  pub within_relationships : AtMost s.used_relationships l.relationships

weigh-Within :
    (l : Limits) (s : Fitting) (i : Item) {t : Fitting}
    → weigh l s i ≡ ok t
    → Within l s
    → Within l t
unfolding weigh exceeds
weigh-Within l s i h w = ground arith

admit-Within :
    (l : Limits) (s : Fitting) (i : Item) {t : Fitting}
    → admit l s i ≡ ok t
    → Within l s
    → Within l t
unfolding admit
admit-Within l s i {t} h w = ground (arith, weigh-Within l s i {t = t})

pub step-Within :
    (l : Limits) (e : ℕ) (s : Fitting) (i : Item) {t : Fitting}
    → step l e s i ≡ ok t
    → Within l s
    → Within l t
unfolding step
step-Within l e s i {t} h w = ground (arith, admit-Within l s i {t = t})

-- A successful loop is a successful round and a successful rest.
pub rounds-cons :
    (l : Limits) (clock : ℕ → ℕ) (n : ℕ) (s : Fitting) (i : Item) (is : List Item) {t : Fitting}
    → rounds l clock n s (i ∷ is) ≡ ok t
    → (u : Fitting) × (step l (clock n) s i ≡ ok u) × (rounds l clock (suc n) u is ≡ ok t)
unfolding rounds
rounds-cons l clock n s i is h = elim (Result-cases (step l (clock n) s i)) [
  | inl (u, e) ↦ (u, e, rw (e, rounds) at h)
  | inr (x, e) ↦ absurd (ground arith)
]

-- An invariant of the rounds is one of the loop.
pub rounds-keeps {ℓ} :
    (P : Fitting → Type ℓ) (l : Limits) (clock : ℕ → ℕ)
    → ((e : ℕ) (s : Fitting) (i : Item) (t : Fitting) → step l e s i ≡ ok t → P s → P t)
    → (n : ℕ) (s : Fitting) (is : List Item) {t : Fitting} → rounds l clock n s is ≡ ok t
    → P s
    → P t
unfolding rounds
rounds-keeps P l clock keeps n s [] h p = subst P (ok-injective h) p
rounds-keeps P l clock keeps n s (i ∷ is) h p =
    let (u, e, r) = rounds-cons l clock n s i is h in
    rounds-keeps P l clock keeps (suc n) u is r (keeps (clock n) s i u e p)

-- What a round does to the output: it keeps the item, or drops it, and then it was not required.
abbrev pub Moves : Fitting → Fitting → Item → Type 0
Moves s t i =
    ((t.kept ≡ s.kept ++ i.id ∷ []) × (t.dropped ≡ s.dropped))
    ⊎ ((t.kept ≡ s.kept)
        × (i.required ≡ false)
        × ((d : Dimension) × (t.dropped ≡ s.dropped ++ (i.id, d) ∷ [])))

weigh-Moves : (l : Limits) (s : Fitting) (i : Item) {t : Fitting} → weigh l s i ≡ ok t → Moves s t i
unfolding weigh
weigh-Moves l s i h = elim (Option-cases (exceeds i l s)) [
  | inl e ↦ inl (ground arith, ground arith)
  | inr ((d, n, a), e) ↦ inr (ground arith, ground arith, (d, ground arith))
]

admit-Moves : (l : Limits) (s : Fitting) (i : Item) {t : Fitting} → admit l s i ≡ ok t → Moves s t i
unfolding admit
admit-Moves l s i {t} h = elim (Option-cases (lookup i.section s.closed)) [
  | inl e ↦ weigh-Moves l s i {t = t} (ground arith)
  | inr (d, e) ↦ elim (Bool-cases i.required) [
    | inl r ↦ weigh-Moves l s i {t = t} (ground arith)
    | inr r ↦ inr (ground arith, r, (d, ground arith))
  ]
]

pub step-Moves :
    (l : Limits) (e : ℕ) (s : Fitting) (i : Item) {t : Fitting} → step l e s i ≡ ok t → Moves s t i
unfolding step
step-Moves l e s i {t} h = elim (Option-cases (missed l.time_ms e)) [
  | inl q ↦ admit-Moves l s i {t = t} (ground arith)
  | inr (d, q) ↦ inr (ground arith, ground arith, (time, ground arith))
]

abbrev pub ids : List Item → List String
ids = map (λ i. i.id)

abbrev pub dropped_ids : List (String × Dimension) → List String
dropped_ids = map (λ p. p.0)

-- What a run of the loop adds to the output: the items it was given, each kept or dropped.
pub record Grows (s t : Fitting) (is : List Item) : Type 0 where
  pub more_kept : List String
  pub more_dropped : List (String × Dimension)
  pub kept_eq : t.kept ≡ s.kept ++ more_kept
  pub dropped_eq : t.dropped ≡ s.dropped ++ more_dropped
  pub all_accounted : Perm (more_kept ++ dropped_ids more_dropped) (ids is)

Grows-cons :
    {s u t : Fitting} (i : Item) (is : List Item) → Moves s u i → Grows u t is → Grows s t (i ∷ is)
Grows-cons {s} i is (inl (k, d)) g = record {
  more_kept = i.id ∷ g.more_kept;
  more_dropped = g.more_dropped;
  kept_eq = g.kept_eq ∙ (rw k (append_assoc s.kept (i.id ∷ []) g.more_kept));
  dropped_eq = g.dropped_eq ∙ ap (λ x. x ++ g.more_dropped) d;
  all_accounted = Perm.cons i.id g.all_accounted;
}
Grows-cons {s} i is (inr (k, r, (d, e))) g = record {
  more_kept = g.more_kept;
  more_dropped = (i.id, d) ∷ g.more_dropped;
  kept_eq = g.kept_eq ∙ ap (λ x. x ++ g.more_kept) k;
  dropped_eq = g.dropped_eq ∙ (rw e (append_assoc s.dropped ((i.id, d) ∷ []) g.more_dropped));
  all_accounted =
      Perm.trans (perm_middle g.more_kept (dropped_ids g.more_dropped))
        (Perm.cons i.id g.all_accounted);
}

pub rounds-Grows :
    (l : Limits) (clock : ℕ → ℕ) (n : ℕ) (s : Fitting) (is : List Item) {t : Fitting}
    → rounds l clock n s is ≡ ok t
    → Grows s t is
unfolding rounds
rounds-Grows l clock n s [] h = record {
  more_kept = [];
  more_dropped = [];
  kept_eq = ground (arith, append-nil s.kept);
  dropped_eq = ground (arith, append-nil s.dropped);
  all_accounted = Perm.refl [];
}
rounds-Grows l clock n s (i ∷ is) h =
    let (u, e, r) = rounds-cons l clock n s i is h in
    Grows-cons i is (step-Moves l (clock n) s i e) (rounds-Grows l clock (suc n) u is r)

pub start-Within : (l : Limits) → Within l start
unfolding start
start-Within l = ground arith

ordered-perm : (is : List Item) → Perm (ordered is) is
unfolding ordered
ordered-perm [] = Perm.refl []
ordered-perm (i ∷ is) = elim (Bool-cases i.required) [
  | inl r ↦ simp r (Perm.cons i (ordered-perm is))
  | inr r ↦
      simp r (
        Perm.trans (perm_middle (select true is) (select false is)) (Perm.cons i (ordered-perm is)))
]

-- A successful fit is a successful loop and the report of its variables.
pub fit-ok :
    (items : List Item) (l : Limits) (estimator : TokenEstimator) (clock : ℕ → ℕ) {f : Fitted}
    → fit items l estimator clock ≡ ok f
    → (s : Fitting) × (rounds l clock 0 start (ordered items) ≡ ok s)
      × (f ≡ report l estimator (clock (length items)) s)
unfolding fit
fit-ok items l estimator clock h = elim (Result-cases (rounds l clock 0 start (ordered items))) [
  | inl (s, e) ↦ (s, e, ground arith)
  | inr (x, e) ↦ absurd (ground arith)
]

-- When fitting succeeds, the identifiers kept and dropped are together those of the items, each as
-- often as it was given.
pub fit-perm :
    (items : List Item) (l : Limits) (estimator : TokenEstimator) (clock : ℕ → ℕ) {f : Fitted}
    → fit items l estimator clock ≡ ok f
    → Perm (f.kept ++ map (λ p. p.0) f.dropped) (ids items)
unfolding start
fit-perm items l estimator clock {f} h =
    let (s, e, r) = fit-ok items l estimator clock h in
    let g = rounds-Grows l clock 0 start (ordered items) e in
    rw (r, g.kept_eq, g.dropped_eq)
      (Perm.trans g.all_accounted (Perm.map (λ i. i.id) (ordered-perm items)))

-- Whether what a dimension spent lies within what was asked for it; time is measured, not spent.
abbrev pub Fits : Dimension × Spend → Type 0
Fits (time, s) = Unit
Fits (_, s) = AtMost s.estimated s.requested

-- When fitting succeeds, no dimension but time has spent more than its limit.
pub fit-Fits :
    (items : List Item) (l : Limits) (estimator : TokenEstimator) (clock : ℕ → ℕ) {f : Fitted}
    → fit items l estimator clock ≡ ok f
    → All Fits f.spend
unfolding start
fit-Fits items l estimator clock {f} h =
    let (s, e, r) = fit-ok items l estimator clock h in
    let w : Within l s =
      rounds-keeps (Within l) l clock (λ e s i t. step-Within l e s i {t = t}) 0 start
        (ordered items) e (start-Within l) in
    rw r (w.within_tokens, (w.within_bytes, (w.within_objects, (w.within_relationships, (tt, tt)))))
