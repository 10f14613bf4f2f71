-- ===== src/Graph/Confidence/Reviewed.antt =====
-- The contradictions that `ConfidenceScorer::assess` of crates/brolga-graph/src/confidence.rs carries:
-- the order in which they are handed over does not matter.
use mathlib.Core.List.{Perm, Permᴰ}
use mathlib.Core.List.Perm
use brolga.Prelude.{
  ℕ, ◌≡◌, refl, sym, ap, ◌∙◌, Bool, true, false, List, ◌++◌, ◌==◌, leb, if◌then◌else◌, arith,
}
use brolga.Graph.Traverse.Edges.{NodeRef, entity, observable, node_eq, node_leb}
use brolga.Graph.Rank.Sorting.{sort_by, sort_by-Perm, Sorted, sort_by-Sorted}
use brolga.Graph.Contradiction.{ContradictionDecision, is_contradiction}
use brolga.Graph.Contradiction.Review.{has_contradiction}
use brolga.Graph.Confidence.{ConfidencePolicy}
use brolga.Graph.Confidence.Scorer.{
  sorts_before, penalties_of, assess, contradiction_penalties, withdrawal_penalties,
  withdrawal_reason, derived_of, weighted_mean, deduction_from,
}
use brolga.Graph.Confidence.Assessment.{ScoringInputs}
use brolga.Graph.Confidence.Components.{components_of}

has_contradiction-Permᴰ :
    {ds es : List ContradictionDecision} → Permᴰ ds es → has_contradiction ds ≡ has_contradiction es
unfolding has_contradiction
has_contradiction-Permᴰ Permᴰ.nil = refl
has_contradiction-Permᴰ (Permᴰ.cons e d) = ground (
  arith,
  ap (λ (x : ContradictionDecision). is_contradiction x.relation) e,
  has_contradiction-Permᴰ d,
)
has_contradiction-Permᴰ (Permᴰ.swap e d) = ground (
  arith,
  ap (λ (x : ContradictionDecision). is_contradiction x.relation) e,
  ap (λ (x : ContradictionDecision). is_contradiction x.relation) d,
)
has_contradiction-Permᴰ (Permᴰ.trans d e) = has_contradiction-Permᴰ d ∙ has_contradiction-Permᴰ e

pub has_contradiction-Perm :
    {ds es : List ContradictionDecision} → Perm ds es → has_contradiction ds ≡ has_contradiction es
has_contradiction-Perm {ds} {es} p =
    ∥∥₁_rec {A = Permᴰ ds es} {P = has_contradiction ds ≡ has_contradiction es} (hlevel)
      has_contradiction-Permᴰ p

pub has_contradiction-sorted :
    (ds : List ContradictionDecision)
    → has_contradiction ds ≡ has_contradiction (sort_by sorts_before ds)
has_contradiction-sorted ds = has_contradiction-Perm (sort_by-Perm sorts_before ds)

sorts_before_total :
    (a b : ContradictionDecision) → sorts_before a b ≡ false → sorts_before b a ≡ true
unfolding node_eq node_leb
sorts_before_total a b h = go a.subject b.subject a.left b.left a.right b.right h
  where
    go :
        (m n : NodeRef) (l r s t : ℕ)
        → (if node_eq m n then (if l == r then leb s t else leb l r) else node_leb m n) ≡ false
        → (if node_eq n m then (if r == l then leb t s else leb r l) else node_leb n m) ≡ true
    go (entity x) (entity y) l r s t h = ground (arith, h)
    go (entity x) (observable y) l r s t h = ground (arith, h)
    go (observable x) (entity y) l r s t h = ground (arith, h)
    go (observable x) (observable y) l r s t h = ground (arith, h)

-- Contradictions handed over in another order give the same figure and the same deductions, and are
-- carried in order, none lost and none added.
pub assess_order :
    (p : ConfidencePolicy) (i : ScoringInputs) (ds : List ContradictionDecision)
    → Perm i.contradictions ds
    → ((assess p (record i { contradictions = ds })).derived ≡ (assess p i).derived)
      × ((assess p (record i { contradictions = ds })).penalties ≡ (assess p i).penalties)
      × Perm ds (assess p i).contradictions
      × Sorted sorts_before (assess p i).contradictions
unfolding assess components_of penalties_of
assess_order p i ds h =
    let sorted = sort_by sorts_before in
    let e : has_contradiction (sorted ds) ≡ has_contradiction (sorted i.contradictions) =
      sym (has_contradiction-sorted ds)
      ∙ sym (has_contradiction-Perm h)
      ∙ has_contradiction-sorted i.contradictions in
    let components = components_of p i in
    let owed = λ (b : Bool).
      contradiction_penalties p b ++ withdrawal_penalties p (withdrawal_reason i.status) in
    (
      ap
          (λ b.
            derived_of p i.source_reliability i.information_credibility components
              (weighted_mean components) (deduction_from 0 (owed b)))
          e,
      ap owed e,
      Perm.trans (Perm.symm h) (sort_by-Perm sorts_before i.contradictions),
      sort_by-Sorted sorts_before sorts_before_total i.contradictions,
    )
