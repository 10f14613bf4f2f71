-- ===== src/Graph/Budget/Afford.antt =====
-- When `fit` of crates/brolga-graph/src/budget.rs fails: exactly when the required items alone pass
-- a limit. Without a deadline, which depends on the clock.
use Prim.Native.Nat.{min}
use brolga.Prelude.{
  ℕ, suc, ◌+◌, ◌≡◌, refl, sym, inl, inr, ◌↔◌, Bool, true, false, ◌&&◌, Option, none, some, List, [],
  ◌∷◌, ◌++◌, arith, if◌then◌else◌, Bool-cases, Option-cases, All, u64_max, subst, length,
}
use brolga.Graph.Budget.{
  Limits, TokenEstimator, Result-cases, ok-injective, ok, err, BudgetFailure, Item, Fitted,
}
use brolga.Graph.Budget.Fit.{
  Fitting, start, over, exceeds, step, rounds, keep, admit, weigh, ordered, fit, select, report,
}
use brolga.Graph.Budget.Loop.{AtMost, Within, step-Within, rounds-cons, fit-ok, start-Within}
use brolga.Graph.Budget.Required.{IsRequired, select-IsRequired, rounds-append}

-- What the required items cost.
pub sum_by : (Item → ℕ) → List Item → ℕ
sum_by f [] = 0
sum_by f (i ∷ is) = f i + sum_by f is

abbrev pub as_relationships : Item → ℕ
as_relationships i = if i.is_relationship then 1 else 0

-- Whether what is used already and the items together stay within the limits, as `u64`s that
-- saturate.
pub record Affords (l : Limits) (s : Fitting) (is : List Item) : Type 0 where
  pub of_tokens : AtMost (min u64_max (s.used_tokens + sum_by (λ i. i.tokens) is)) l.tokens
  pub of_bytes : AtMost (min u64_max (s.used_bytes + sum_by (λ i. i.bytes) is)) l.bytes
  pub of_objects : AtMost (min u64_max (s.used_objects + sum_by (λ i. 1) is)) l.objects
  pub of_relationships :
      AtMost (min u64_max (s.used_relationships + sum_by as_relationships is)) l.relationships

over_of_AtMost :
    (lim : Option ℕ) (u a b : ℕ) → AtMost (min u64_max (u + (a + b))) lim → over lim u a ≡ false
over_of_AtMost none u a b h = refl
over_of_AtMost (some k) u a b h = ground arith

AtMost-next :
    (lim : Option ℕ) (u a b : ℕ)
    → AtMost (min u64_max (u + (a + b))) lim ↔ AtMost (min u64_max (min u64_max (u + a) + b)) lim
AtMost-next none u a b = (λ h. h, λ h. h)
AtMost-next (some k) u a b = (λ h. omega arith, λ h. omega arith)

relationship-next :
    (lim : Option ℕ) (u b : ℕ) (r : Bool)
    → AtMost (min u64_max (u + ((if r then 1 else 0) + b))) lim
      ↔ AtMost (min u64_max ((if r then min u64_max (u + 1) else u) + b)) lim
relationship-next lim u b true = AtMost-next lim u 1 b
relationship-next none u b false = (λ h. h, λ h. h)
relationship-next (some k) u b false = (λ h. omega arith, λ h. omega arith)

keep-Affords :
    (l : Limits) (s : Fitting) (i : Item) (is : List Item)
    → Affords l s (i ∷ is) ↔ Affords l (keep i s) is
unfolding keep sum_by
keep-Affords l s i is =
    let t = AtMost-next l.tokens s.used_tokens i.tokens (sum_by (λ i. i.tokens) is) in
    let b = AtMost-next l.bytes s.used_bytes i.bytes (sum_by (λ i. i.bytes) is) in
    let o = AtMost-next l.objects s.used_objects 1 (sum_by (λ i. 1) is) in
    let r =
      relationship-next l.relationships s.used_relationships (sum_by as_relationships is)
        i.is_relationship in
    (
      λ a. record {
        of_tokens = t.0 a.of_tokens;
        of_bytes = b.0 a.of_bytes;
        of_objects = o.0 a.of_objects;
        of_relationships = r.0 a.of_relationships;
      },
      λ a. record {
        of_tokens = t.1 a.of_tokens;
        of_bytes = b.1 a.of_bytes;
        of_objects = o.1 a.of_objects;
        of_relationships = r.1 a.of_relationships;
      },
    )

relationship_over :
    (lim : Option ℕ) (u b : ℕ) (r : Bool)
    → AtMost (min u64_max (u + ((if r then 1 else 0) + b))) lim
    → (r && over lim u 1) ≡ false
relationship_over lim u b true h = over_of_AtMost lim u 1 b h
relationship_over lim u b false h = refl

Affords-exceeds :
    (l : Limits) (s : Fitting) (i : Item) (is : List Item)
    → Affords l s (i ∷ is)
    → exceeds i l s ≡ none
unfolding exceeds sum_by
Affords-exceeds l s i is a =
    rw
      (
        over_of_AtMost l.tokens s.used_tokens i.tokens (sum_by (λ i. i.tokens) is) a.of_tokens,
        over_of_AtMost l.bytes s.used_bytes i.bytes (sum_by (λ i. i.bytes) is) a.of_bytes,
        over_of_AtMost l.objects s.used_objects 1 (sum_by (λ i. 1) is) a.of_objects,
        relationship_over l.relationships s.used_relationships (sum_by as_relationships is)
            i.is_relationship a.of_relationships,
      )
      refl

-- A required item that a round accepts is kept.
step_required :
    (l : Limits) (e : ℕ) (s : Fitting) (i : Item) {t : Fitting}
    → i.required ≡ true
    → step l e s i ≡ ok t
    → t ≡ keep i s
unfolding step admit weigh
step_required l e s i r h = elim (Option-cases (exceeds i l s)) [
  | inl q ↦ ground arith
  | inr (x, q) ↦ ground arith
]

-- Without a deadline a round accepts a required item that fits.
step_fits :
    (l : Limits) (e : ℕ) (s : Fitting) (i : Item)
    → l.time_ms ≡ none
    → i.required ≡ true
    → exceeds i l s ≡ none
    → step l e s i ≡ ok (keep i s)
unfolding step admit weigh
step_fits l e s i d r h = ground arith

optional_no_error :
    (l : Limits) (e : ℕ) (s : Fitting) (i : Item) {x : BudgetFailure}
    → i.required ≡ false
    → step l e s i ≡ err x
    → ⊥
unfolding step admit weigh
optional_no_error l e s i r h = ground arith

-- A round accepts any item that is not required, if only to drop it.
step_optional :
    (l : Limits) (e : ℕ) (s : Fitting) (i : Item)
    → i.required ≡ false
    → (t : Fitting) × (step l e s i ≡ ok t)
step_optional l e s i r = elim (Result-cases (step l e s i)) [
  | inl found ↦ found
  | inr (x, h) ↦ absurd (optional_no_error l e s i r h)
]

rounds_optional :
    (l : Limits) (clock : ℕ → ℕ) (n : ℕ) (s : Fitting) (is : List Item)
    → (t : Fitting) × (rounds l clock n s (select false is) ≡ ok t)
unfolding rounds
rounds_optional l clock n s [] = (s, refl)
rounds_optional l clock n s (i ∷ is) = elim (Bool-cases i.required) [
  | inl r ↦ simp r (rounds_optional l clock n s is)
  | inr r ↦
      let (u, e) = step_optional l (clock n) s i r in
      let (t, h) = rounds_optional l clock (suc n) u is in (t, simp r (rw (e, rounds) h))
]

rounds_affordable :
    (l : Limits) (clock : ℕ → ℕ) (n : ℕ) (s : Fitting) (is : List Item)
    → l.time_ms ≡ none
    → All IsRequired is
    → Affords l s is
    → (t : Fitting) × (rounds l clock n s is ≡ ok t)
unfolding rounds
rounds_affordable l clock n s [] d a f = (s, refl)
rounds_affordable l clock n s (i ∷ is) d a f =
    let e = step_fits l (clock n) s i d a.0 (Affords-exceeds l s i is f) in
    let (t, h) =
      rounds_affordable l clock (suc n) (keep i s) is d a.1 ((keep-Affords l s i is).0 f) in
    (t, rw (e, rounds) h)

Within-Affords : (l : Limits) (s : Fitting) → Within l s → Affords l s []
unfolding sum_by
Within-Affords l s w = ground arith

rounds-Affords :
    (l : Limits) (clock : ℕ → ℕ) (n : ℕ) (s : Fitting) (is : List Item) {t : Fitting}
    → All IsRequired is
    → Within l s
    → rounds l clock n s is ≡ ok t
    → Affords l s is
rounds-Affords l clock n s [] a w h = Within-Affords l s w
rounds-Affords l clock n s (i ∷ is) a w h =
    let (u, e, r) = rounds-cons l clock n s i is h in
    let rest = rounds-Affords l clock (suc n) u is a.1 (step-Within l (clock n) s i e w) r in
    (keep-Affords l s i is).1
      (subst (λ v. Affords l v is) (step_required l (clock n) s i a.0 e) rest)

rounds-append_ok :
    (l : Limits) (clock : ℕ → ℕ) (n : ℕ) (s : Fitting) (xs ys : List Item) {u : Fitting}
    → rounds l clock n s xs ≡ ok u
    → ((m : ℕ) → (t : Fitting) × (rounds l clock m u ys ≡ ok t))
    → (t : Fitting) × (rounds l clock n s (xs ++ ys) ≡ ok t)
unfolding rounds
rounds-append_ok l clock n s [] ys h more =
    let (t, p) = more n in (t, subst (λ v. rounds l clock n v ys ≡ ok t) (sym (ok-injective h)) p)
rounds-append_ok l clock n s (x ∷ xs) ys h more =
    let (v, e, r) = rounds-cons l clock n s x xs h in
    let (t, p) = rounds-append_ok l clock (suc n) v xs ys r more in (t, rw (e, rounds) p)

-- Without a deadline, fitting succeeds exactly when the required items alone stay within every
-- limit, counted as saturating `u64`s: no optional item and no order of the items makes it fail.
pub fit_succeeds_iff :
    (items : List Item) (l : Limits) (estimator : TokenEstimator) (clock : ℕ → ℕ)
    → l.time_ms ≡ none
    → ((f : Fitted) × (fit items l estimator clock ≡ ok f)) ↔ Affords l start (select true items)
unfolding fit ordered
fit_succeeds_iff items l estimator clock d = (
  λ (f, h).
      let (s, e, r) = fit-ok items l estimator clock h in
      let (u, m, p, q) = rounds-append l clock 0 start (select true items) (select false items) e in
      rounds-Affords l clock 0 start (select true items) (select-IsRequired items) (start-Within l)
        p,
  λ a.
      let (u, p) =
        rounds_affordable l clock 0 start (select true items) d (select-IsRequired items) a in
      let (t, h) =
        rounds-append_ok l clock 0 start (select true items) (select false items) p
          (λ m. rounds_optional l clock m u items) in
      (report l estimator (clock (length items)) t, rw (h, fit) refl),
)
