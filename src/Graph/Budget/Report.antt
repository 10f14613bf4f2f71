-- ===== src/Graph/Budget/Report.antt =====
-- What `fit` of crates/brolga-graph/src/budget.rs reports of the items that it dropped.
use brolga.Prelude.{
  ℕ, ◌≡◌, refl, sym, ap, ◌∙◌, ◌⊎◌, inl, inr, String, Bool, true, false, ◌||◌, none, some, List, [],
  ◌∷◌, ◌++◌, arith, Bool-cases, Option-cases, subst, length, is_some,
}
use brolga.Graph.Budget.{
  Dimension, tokens, bytes, objects, relationships, depth, time, dimension_eq, Limits,
  TokenEstimator, ok, Item, Fitted, contains, binding,
}
use brolga.Graph.Budget.Fit.{
  Fitting, start, lookup, exceeds, step, keep, drop, missed, admit, weigh, ordered, fit, report,
}
use brolga.Graph.Budget.Loop.{rounds-keeps, fit-ok}

-- Whether a dimension dropped an item.
abbrev pub dropped_by : Dimension → List (String × Dimension) → Bool
dropped_by d [] = false
dropped_by d ((k, e) ∷ r) = dimension_eq e d || dropped_by d r

dimension_eq-eq : (d e : Dimension) → dimension_eq d e ≡ true → d ≡ e
dimension_eq-eq d e h = ground arith

dropped_by-append :
    (d : Dimension) (xs : List (String × Dimension)) (k : String) (e : Dimension)
    → dropped_by d (xs ++ (k, e) ∷ []) ≡ (dropped_by d xs || dimension_eq e d)
dropped_by-append d [] k e = ground arith
dropped_by-append d ((j, c) ∷ xs) k e = ground (arith, dropped_by-append d xs k e)

record Reported (s : Fitting) : Type 0 where
  same : (d : Dimension) → contains d s.binding ≡ dropped_by d s.dropped
  of_closed :
      (k : String) (d : Dimension) → lookup k s.closed ≡ some d → contains d s.binding ≡ true
  no_depth : contains depth s.binding ≡ false

exceeds-depth :
    (i : Item) (l : Limits) (s : Fitting) (n a : ℕ) → exceeds i l s ≡ some (depth, n, a) → ⊥
unfolding exceeds
exceeds-depth i l s n a h = ground arith

keep-Reported : (s : Fitting) (i : Item) → Reported s → Reported (keep i s)
unfolding keep
keep-Reported s i r = record { same = r.same; of_closed = r.of_closed; no_depth = r.no_depth }

-- What `binding.insert`, `closed.insert` and `dropped.push` do together.
abbrev pub shut : Item → Dimension → Fitting → Fitting
shut i d s = drop i d (record s { binding = d ∷ s.binding; closed = (i.section, d) ∷ s.closed })

shut-Reported :
    (s : Fitting) (i : Item) (d : Dimension)
    → dimension_eq d depth ≡ false
    → Reported s
    → Reported (shut i d s)
unfolding drop
shut-Reported s i d n r = record {
  same = λ e. ground (arith, r.same e, dropped_by-append e s.dropped i.id d);
  of_closed = λ k e h. ground (arith, r.of_closed k e);
  no_depth = ground (arith, r.no_depth);
}

time-Reported :
    (s : Fitting) (i : Item)
    → Reported s
    → Reported (drop i time (record s { binding = time ∷ s.binding }))
unfolding drop
time-Reported s i r = record {
  same = λ e. ground (arith, r.same e, dropped_by-append e s.dropped i.id time);
  of_closed = λ k e h. ground (arith, r.of_closed k e h);
  no_depth = ground (arith, r.no_depth);
}

again-Reported :
    (s : Fitting) (i : Item) (d : Dimension)
    → contains d s.binding ≡ true
    → Reported s
    → Reported (drop i d s)
unfolding drop
again-Reported s i d c r = record {
  same = λ e. again e (Bool-cases (dimension_eq d e));
  of_closed = r.of_closed;
  no_depth = r.no_depth;
}
  where
    again :
        (e : Dimension)
        → ((dimension_eq d e ≡ true) ⊎ (dimension_eq d e ≡ false))
        → contains e s.binding ≡ dropped_by e (s.dropped ++ (i.id, d) ∷ [])
    again e (inl q) = ground (
      arith,
      r.same e,
      dropped_by-append e s.dropped i.id d,
      ap (λ x. contains x s.binding) (dimension_eq-eq d e q),
    )
    again e (inr q) = ground (arith, r.same e, dropped_by-append e s.dropped i.id d)

-- What a round without a missed deadline comes to.
pub weigh_cases :
    (l : Limits) (s : Fitting) (i : Item) {t : Fitting}
    → weigh l s i ≡ ok t
    → ((exceeds i l s ≡ none) × (t ≡ keep i s))
      ⊎ ((d : Dimension) × (n : ℕ) × (a : ℕ) × (exceeds i l s ≡ some (d, n, a))
          × (i.required ≡ false)
          × (t ≡ shut i d s))
unfolding weigh
weigh_cases l s i h = elim (Option-cases (exceeds i l s)) [
  | inl e ↦ inl (e, ground arith)
  | inr ((d, n, a), e) ↦ inr (d, n, a, e, ground arith, ground arith)
]

weigh-Reported :
    (l : Limits) (s : Fitting) (i : Item) {t : Fitting}
    → weigh l s i ≡ ok t
    → Reported s
    → Reported t
weigh-Reported l s i h r = elim (weigh_cases l s i h) [
  | inl (e, q) ↦ subst Reported (sym q) (keep-Reported s i r)
  | inr (d, n, a, e, o, q) ↦ subst Reported (sym q) (shut-Reported s i d (not_depth d n a e) r)
]
  where
    not_depth :
        (d : Dimension) (n a : ℕ) → exceeds i l s ≡ some (d, n, a) → dimension_eq d depth ≡ false
    not_depth depth n a e = absurd (exceeds-depth i l s n a e)
    not_depth _ n a e = refl

-- What a round comes to.
pub step_cases :
    (l : Limits) (e : ℕ) (s : Fitting) (i : Item) {t : Fitting}
    → step l e s i ≡ ok t
    → ((weigh l s i ≡ ok t) × ((i.required ≡ true) ⊎ (lookup i.section s.closed ≡ none)))
      ⊎ ((d : Dimension) × (lookup i.section s.closed ≡ some d)
          × (i.required ≡ false)
          × (t ≡ drop i d s))
      ⊎ ((is_some (missed l.time_ms e) ≡ true)
          × (i.required ≡ false)
          × (t ≡ drop i time (record s { binding = time ∷ s.binding })))
unfolding step admit
step_cases l e s i {t} h = elim (Option-cases (missed l.time_ms e)) [
  | inr (m, q) ↦ inr (inr (ground arith, ground arith, ground arith))
  | inl q ↦ elim (Option-cases (lookup i.section s.closed)) [
    | inl c ↦ inl (ground arith, inr c)
    | inr (d, c) ↦ elim (Bool-cases i.required) [
      | inl r ↦ inl (ground arith, inl r)
      | inr r ↦ inr (inl (d, c, r, ground arith))
    ]
  ]
]

step-Reported :
    (l : Limits) (e : ℕ) (s : Fitting) (i : Item) (t : Fitting)
    → step l e s i ≡ ok t
    → Reported s
    → Reported t
step-Reported l e s i t h r = elim (step_cases l e s i h) [
  | inl (w, o) ↦ weigh-Reported l s i w r
  | inr (inl (d, c, o, q)) ↦
      subst Reported (sym q) (again-Reported s i d (r.of_closed i.section d c) r)
  | inr (inr (m, o, q)) ↦ subst Reported (sym q) (time-Reported s i r)
]

start-Reported : Reported start
unfolding start
start-Reported = record { same = λ d. refl; of_closed = λ k d h. cc; no_depth = refl }

binding-report :
    (l : Limits) (estimator : TokenEstimator) (n : ℕ) (s : Fitting) (d : Dimension)
    → contains depth s.binding ≡ false
    → contains d (binding (report l estimator n s)) ≡ contains d s.binding
unfolding binding
binding-report l estimator n s tokens h = ground arith
binding-report l estimator n s bytes h = ground arith
binding-report l estimator n s objects h = ground arith
binding-report l estimator n s relationships h = ground arith
binding-report l estimator n s depth h = ground arith
binding-report l estimator n s time h = ground arith

-- When fitting succeeds, a dimension is reported as binding exactly when some item was dropped for
-- it.
fit-binding :
    (items : List Item) (l : Limits) (estimator : TokenEstimator) (clock : ℕ → ℕ) (d : Dimension)
    {f : Fitted}
    → fit items l estimator clock ≡ ok f
    → contains d (binding f) ≡ dropped_by d f.dropped
fit-binding items l estimator clock d h =
    let (s, e, q) = fit-ok items l estimator clock h in
    let r =
      rounds-keeps Reported l clock (step-Reported l) 0 start (ordered items) e start-Reported in
    rw q (binding-report l estimator (clock (length items)) s d r.no_depth ∙ r.same d)
