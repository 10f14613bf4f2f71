-- ===== src/Graph/Budget/Sections.antt =====
-- A section of `fit` in crates/brolga-graph/src/budget.rs that meets its limit stops there: it does
-- not skip ahead to a smaller item.
use mathlib.Core.List.{Sublist, Sublistᴰ, append-nil, append_assoc}
use mathlib.Core.Logic.{∥∥₁_map}
use brolga.Prelude.{
  ℕ, suc, ◌≡◌, ◌≢◌, refl, ap, ◌∙◌, ◌⊎◌, inl, inr, String, true, none, some, is_some, List, [], ◌∷◌,
  ◌++◌, arith, eq_iff, All,
}
use brolga.Graph.Budget.{Dimension, Limits, ok, Item}
use brolga.Graph.Budget.Fit.{Fitting, lookup, exceeds, step, rounds, keep, drop}
use brolga.Graph.Budget.Loop.{ids, rounds-cons}
use brolga.Graph.Budget.Report.{weigh_cases, step_cases}

abbrev IsClosed : String → Fitting → Type 0
IsClosed k s = is_some (lookup k s.closed) ≡ true

-- Required, or of another section.
abbrev pub Spared : String → Item → Type 0
Spared k i = (i.required ≡ true) ⊎ (i.section ≢ k)

-- What the loop keeps: some of its items, all of them spared.
pub record KeepsSpared (k : String) (s t : Fitting) (is : List Item) : Type 0 where
  pub more : List Item
  pub sublist : Sublist more is
  pub kept_eq : t.kept ≡ s.kept ++ ids more
  pub spared : All (Spared k) more

-- A round under a closed section.
RoundOf : String → Fitting → Fitting → Item → Type 0
RoundOf k s u i = IsClosed k u × (((u.kept ≡ s.kept ++ i.id ∷ []) × Spared k i) ⊎ (u.kept ≡ s.kept))

step-RoundOf :
    (k : String) (l : Limits) (e : ℕ) (s : Fitting) (i : Item) {u : Fitting}
    → IsClosed k s
    → step l e s i ≡ ok u
    → RoundOf k s u i
unfolding RoundOf keep drop
step-RoundOf k l e s i {u} c h = elim (step_cases l e s i h) [
  | inl (w, o) ↦ elim (weigh_cases l s i w) [
    | inl (x, q) ↦ (ground arith, inl (ground arith, spared o))
    | inr (d, n, a, x, r, q) ↦ (ground (arith, eq_iff i.section k), inr (ground arith))
  ]
  | inr (inl (d, x, r, q)) ↦ (ground arith, inr (ground arith))
  | inr (inr (m, r, q)) ↦ (ground arith, inr (ground arith))
]
  where
    spared : ((i.required ≡ true) ⊎ (lookup i.section s.closed ≡ none)) → Spared k i
    spared (inl r) = inl r
    spared (inr o) = inr (λ same. ground (arith, ap (λ x. lookup x s.closed) same))

KeepsSpared-cons :
    {k : String} {s u t : Fitting} (i : Item) (is : List Item)
    → RoundOf k s u i
    → KeepsSpared k u t is
    → KeepsSpared k s t (i ∷ is)
unfolding RoundOf
KeepsSpared-cons {s = s} i is (c, inl (q, p)) g = record {
  more = i ∷ g.more;
  sublist = ∥∥₁_map g.sublist (λ x. Sublistᴰ.cons-cons refl x);
  kept_eq = g.kept_eq ∙ (rw q (append_assoc s.kept (i.id ∷ []) (ids g.more)));
  spared = (p, g.spared);
}
KeepsSpared-cons i is (c, inr q) g = record {
  more = g.more;
  sublist = ∥∥₁_map g.sublist (λ x. Sublistᴰ.cons x);
  kept_eq = g.kept_eq ∙ ap (λ x. x ++ ids g.more) q;
  spared = g.spared;
}

rounds-KeepsSpared :
    (k : String) (l : Limits) (clock : ℕ → ℕ) (n : ℕ) (s : Fitting) (is : List Item) {t : Fitting}
    → IsClosed k s
    → rounds l clock n s is ≡ ok t
    → KeepsSpared k s t is
unfolding rounds RoundOf
rounds-KeepsSpared k l clock n s [] c h = record {
  more = [];
  sublist = ∣ Sublistᴰ.slnil ∣₁;
  kept_eq = ground (arith, append-nil s.kept);
  spared = tt;
}
rounds-KeepsSpared k l clock n s (i ∷ is) c h =
    let (u, e, r) = rounds-cons l clock n s i is h in
    let o = step-RoundOf k l (clock n) s i c e in
    KeepsSpared-cons i is o (rounds-KeepsSpared k l clock (suc n) u is o.0 r)

step_too_big :
    (l : Limits) (e : ℕ) (s : Fitting) (x : Item) (d : Dimension) (needed available : ℕ)
    {u : Fitting}
    → l.time_ms ≡ none
    → exceeds x l s ≡ some (d, needed, available)
    → step l e s x ≡ ok u
    → IsClosed x.section u × (u.kept ≡ s.kept)
unfolding drop
step_too_big l e s x d needed available t h r = elim (step_cases l e s x r) [
  | inl (w, o) ↦ elim (weigh_cases l s x w) [
    | inl (y, q) ↦ absurd (ground arith)
    | inr (d', n, a, y, o', q) ↦ (ground (arith, eq_iff x.section x.section), ground arith)
  ]
  | inr (inl (d', y, o, q)) ↦ (ground arith, ground arith)
  | inr (inr (m, o, q)) ↦ absurd (ground arith)
]

-- Without a deadline, when an item does not fit and the loop still succeeds, it is not kept, and of
-- the items after it only required ones and those of other sections are.
pub section_stops :
    (l : Limits) (clock : ℕ → ℕ) (n : ℕ) (s : Fitting) (x : Item) (is : List Item) (d : Dimension)
    (needed available : ℕ) {t : Fitting}
    → l.time_ms ≡ none
    → exceeds x l s ≡ some (d, needed, available)
    → rounds l clock n s (x ∷ is) ≡ ok t
    → KeepsSpared x.section s t is
section_stops l clock n s x is d needed available m h r =
    let (u, e, rest) = rounds-cons l clock n s x is r in
    let (closed, kept) = step_too_big l (clock n) s x d needed available m h e in
    let g = rounds-KeepsSpared x.section l clock (suc n) u is closed rest in
    record {
      more = g.more;
      sublist = g.sublist;
      kept_eq = g.kept_eq ∙ ap (λ y. y ++ ids g.more) kept;
      spared = g.spared;
    }
