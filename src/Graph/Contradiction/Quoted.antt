-- ===== src/Graph/Contradiction/Quoted.antt =====
-- What a decision of crates/brolga-graph/src/contradiction.rs quotes of its claims.
use brolga.Prelude.{
  ◌⊎◌, ℕ, zero, suc, ◌≤◌, ◌≡◌, refl, subst, inl, inr, leb, Bool, true, false, ◌&&◌, ◌||◌, not,
  Option, none, some, [], ◌∷◌, Text, text_eq, All, length, take, Bool-cases, arith,
}
use brolga.Model.Marking.{most_restrictive_tlp}
use brolga.Graph.Traverse.Edges.{node_eq}
use brolga.Graph.Contradiction.{
  Predicate, predicate_of, predicate_eq, ClaimRelation, Reason, revoked, withdrawn, supersedes,
  replaced, changed_mind, analyst_override, analyst_decided, agrees, same_value, unrelated, no_slot,
  other_questions, other_subjects, ReviewedClaim, ContradictionDecision, ContradictionRules,
  same_assertion, is_analyst, is_revoked, is_superseded, bool_eq, ordered_in_time, quoted_pair,
  is_control, printable, bounded, exceeds, allowed,
}
use brolga.Graph.Contradiction.Relate.{
  quotation_forbidden, compare_values, decide, relate_slot, relate_slots, relate_ordered, relate,
}

-- Short, and without characters that a terminal acts on.
abbrev pub Harmless : Option Text → Type 0
Harmless none = Unit
Harmless (some text) = (length text ≤ 200) × All (λ c. is_control c ≡ false) text

abbrev pub over : ContradictionRules → ReviewedClaim → Bool
over rules c = exceeds rules.evidence_ceiling (most_restrictive_tlp c.markings)

-- What is quoted is harmless, and nothing is if one of the claims is marked above the ceiling.
abbrev pub QuotesFor : Bool → ContradictionDecision → Type 0
QuotesFor forbidden d =
    Harmless d.evidence
    × ((forbidden ≡ false) ⊎ (d.evidence ≡ none))
    × ((d.evidence_withheld ≡ false) ⊎ (d.evidence ≡ none))

take_short : (n : ℕ) (s : Text) → length (take n s) ≤ n
take_short zero s = omega arith
take_short (suc n) [] = omega arith
take_short (suc n) (c ∷ s) = omega (arith, take_short n s)

take-All :
    (n : ℕ) (s : Text)
    → All (λ c. is_control c ≡ false) s
    → All (λ c. is_control c ≡ false) (take n s)
take-All zero s h = tt
take-All (suc n) [] h = tt
take-All (suc n) (c ∷ s) h = (h.0, take-All n s h.1)

printable-All : (s : Text) → All (λ c. is_control c ≡ false) (printable s)
printable-All [] = tt
printable-All (c ∷ s) = elim (Bool-cases (is_control c)) [
  | inl q ↦ rw q (printable-All s)
  | inr q ↦ rw q (q, printable-All s)
]

module _ (rules : ContradictionRules) (a b : ReviewedClaim) where
  abbrev Quotes : ContradictionDecision → Type 0
  Quotes = QuotesFor (quotation_forbidden rules a b)

  decide-Quotes :
      (p : Option Predicate) (r : ClaimRelation × Reason) (evidence : Option Text)
      → Quotes (decide rules a b p r evidence)
  unfolding bounded
  decide-Quotes p r none = (tt, inr refl, inr refl)
  decide-Quotes p r (some text) = quoted (quotation_forbidden rules a b)
    where
      quoted :
          (t : Bool)
          → Harmless (allowed t (some text))
            × ((t ≡ false) ⊎ (allowed t (some text) ≡ none))
            × (((t && true) ≡ false) ⊎ (allowed t (some text) ≡ none))
      quoted true = (tt, inr refl, inr refl)
      quoted false = (
        (take_short 200 (printable text), take-All 200 (printable text) (printable-All text)),
        inl refl,
        inl refl,
      )

  relate_slot-Quotes : (p : Predicate) → Quotes (relate_slot rules a b p)
  relate_slot-Quotes p =
      let same = same_assertion a.assertion b.assertion in
      let quote = some (quoted_pair a.assertion b.assertion) in
      elim (Bool-cases (is_revoked a.status || is_revoked b.status)) [
        | inl q ↦ rw q (decide-Quotes (some p) (revoked, withdrawn) none)
        | inr q ↦ elim (Bool-cases (is_superseded a.status || is_superseded b.status)) [
          | inl r ↦ rw (q, r) (decide-Quotes (some p) (supersedes, replaced) none)
          | inr r ↦
              elim (Bool-cases
                (not same && text_eq a.publisher b.publisher && ordered_in_time a b)) [
                  | inl c ↦ rw (q, r, c) (decide-Quotes (some p) (supersedes, changed_mind) quote)
                  | inr c ↦
                      elim (Bool-cases
                        (not same && not (bool_eq (is_analyst a.stance) (is_analyst b.stance)))) [
                          | inl k ↦
                              rw (q, r, c, k)
                                (decide-Quotes (some p) (analyst_override, analyst_decided) quote)
                          | inr k ↦ elim (Bool-cases same) [
                            | inl e ↦
                                rw (q, r, c, k, e)
                                  (decide-Quotes (some p) (agrees, same_value) quote)
                            | inr e ↦
                                rw (q, r, c, k, e)
                                  (decide-Quotes (some p)
                                    (compare_values rules a.assertion b.assertion) quote)
                          ]
                        ]
                ]
        ]
      ]

  relate_slots-Quotes : (o q : Option Predicate) → Quotes (relate_slots rules a b o q)
  relate_slots-Quotes none q = decide-Quotes none (unrelated, no_slot) none
  relate_slots-Quotes (some p) none = decide-Quotes none (unrelated, no_slot) none
  relate_slots-Quotes (some p) (some q) = elim (Bool-cases (predicate_eq p q)) [
    | inl e ↦ rw e (relate_slot-Quotes p)
    | inr e ↦ rw e (decide-Quotes none (unrelated, other_questions) none)
  ]

  relate_ordered-Quotes : Quotes (relate_ordered rules a b)
  unfolding relate_ordered
  relate_ordered-Quotes = elim (Bool-cases (node_eq a.subject b.subject)) [
    | inl q ↦
        rw (relate_ordered, q)
          (relate_slots-Quotes (predicate_of a.assertion) (predicate_of b.assertion))
    | inr q ↦ rw (relate_ordered, q) (decide-Quotes none (unrelated, other_subjects) none)
  ]

forbidden_comm :
    (rules : ContradictionRules) (a b : ReviewedClaim)
    → quotation_forbidden rules b a ≡ quotation_forbidden rules a b
unfolding quotation_forbidden
forbidden_comm rules a b = either (over rules a) (over rules b)
  where
    either : (s t : Bool) → (t || s) ≡ (s || t)
    either s t = ground arith

-- What a decision quotes of two claims has at most 200 characters and no control characters, and it
-- quotes nothing if either claim is marked above the ceiling, nor where it says that it withholds.
pub relate-QuotesFor :
    (rules : ContradictionRules) (a b : ReviewedClaim)
    → QuotesFor (over rules a || over rules b) (relate rules a b)
unfolding relate quotation_forbidden
relate-QuotesFor rules a b = elim (Bool-cases (leb a.id b.id)) [
  | inl q ↦ rw q (relate_ordered-Quotes rules a b)
  | inr q ↦ rw q (
      subst (λ t. QuotesFor t (relate_ordered rules b a)) (forbidden_comm rules a b)
        (relate_ordered-Quotes rules b a))
]
