-- ===== src/Graph/Budget/Required.antt =====
-- Required items in `fit` of crates/brolga-graph/src/budget.rs: kept, or fitting fails.
use mathlib.Core.List.{append_assoc, append-nil}
use brolga.Prelude.{
  ℕ, suc, ◌≡◌, refl, ap, ◌∙◌, inl, inr, String, true, false, List, [], ◌∷◌, ◌++◌, arith, Bool-cases,
  All,
}
use brolga.Graph.Budget.{Limits, TokenEstimator, ok, Item, Fitted}
use brolga.Graph.Budget.Fit.{Fitting, start, rounds, ordered, fit, select}
use brolga.Graph.Budget.Loop.{Moves, step-Moves, ids, rounds-cons, rounds-Grows, fit-ok}

abbrev pub IsRequired : Item → Type 0
IsRequired i = i.required ≡ true

pub select-IsRequired : (is : List Item) → All IsRequired (select true is)
select-IsRequired [] = tt
select-IsRequired (i ∷ is) = elim (Bool-cases i.required) [
  | inl r ↦ simp r (refl, select-IsRequired is)
  | inr r ↦ simp r (select-IsRequired is)
]

-- Two stretches of the loop.
pub rounds-append :
    (l : Limits) (clock : ℕ → ℕ) (n : ℕ) (s : Fitting) (xs ys : List Item) {t : Fitting}
    → rounds l clock n s (xs ++ ys) ≡ ok t
    → (u : Fitting) × (m : ℕ) × (rounds l clock n s xs ≡ ok u) × (rounds l clock m u ys ≡ ok t)
unfolding rounds
rounds-append l clock n s [] ys h = (s, n, refl, h)
rounds-append l clock n s (x ∷ xs) ys h =
    let (u, e, r) = rounds-cons l clock n s x (xs ++ ys) h in
    let (v, m, p, q) = rounds-append l clock (suc n) u xs ys r in (v, m, rw (e, rounds) p, q)

rounds-required :
    (l : Limits) (clock : ℕ → ℕ) (n : ℕ) (s : Fitting) (is : List Item) {t : Fitting}
    → All IsRequired is
    → rounds l clock n s is ≡ ok t
    → t.kept ≡ s.kept ++ ids is
unfolding rounds
rounds-required l clock n s [] a h = ground (arith, append-nil s.kept)
rounds-required l clock n s (i ∷ is) a h =
    let (u, e, r) = rounds-cons l clock n s i is h in
    rounds-required l clock (suc n) u is a.1 r ∙ next u (step-Moves l (clock n) s i e)
  where
    next : (u : Fitting) → Moves s u i → u.kept ++ ids is ≡ s.kept ++ (i.id ∷ ids is)
    next u (inl (k, d)) = rw k (append_assoc s.kept (i.id ∷ []) (ids is))
    next u (inr (k, q, d)) = absurd (ground (arith, a.0))

-- When fitting succeeds, the kept identifiers begin with those of all the required items, in the
-- order given, whatever the sizes and the order of the others.
pub fit-keeps_required :
    (items : List Item) (l : Limits) (estimator : TokenEstimator) (clock : ℕ → ℕ) {f : Fitted}
    → fit items l estimator clock ≡ ok f
    → (rest : List String) × (f.kept ≡ ids (select true items) ++ rest)
unfolding ordered start
fit-keeps_required items l estimator clock h =
    let (s, e, r) = fit-ok items l estimator clock h in
    let (u, m, p, q) = rounds-append l clock 0 start (select true items) (select false items) e in
    let g = rounds-Grows l clock m u (select false items) q in
    let k = rounds-required l clock 0 start (select true items) (select-IsRequired items) p in
    (g.more_kept, ap (λ f. f.kept) r ∙ g.kept_eq ∙ ap (λ x. x ++ g.more_kept) k)
