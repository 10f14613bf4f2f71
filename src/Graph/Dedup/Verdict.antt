-- ===== src/Graph/Dedup/Verdict.antt =====
-- What `judge` of crates/brolga-graph/src/dedup.rs decides.
use mathlib.Core.List.{Memᴰ}
use brolga.Prelude.{
  ◌≡◌, ◌≢◌, refl, sym, ap, ◌↔◌, inl, inr, ◌∙◌, text_eq, text_eq_iff, Bool, true, false, none, some,
  List, [], ◌∷◌, ◌++◌, arith, ◌==◌, All, Option-cases, Bool-cases,
}
use brolga.Graph.Dedup.{
  DedupVerdict, exact_duplicate, canonical_duplicate, syndicated_copy, independent_corroboration,
  update, is_new_evidence, Observation, find, judge,
}

-- The first element of a list that has a property.
pub record Earliest (P : Observation → Type 0) (x : Observation) (os : List Observation)
    : Type 0 where
  pub before : List Observation
  pub after : List Observation
  pub split : os ≡ before ++ x ∷ after
  pub hit : P x
  pub misses : All (λ y. ¬ P y) before

abbrev pub SameBytes : Observation → Observation → Type 0
SameBytes o seen = seen.content_hash ≡ o.content_hash

abbrev pub SamePublisher : Observation → Observation → Type 0
SamePublisher o seen = seen.publisher ≡ o.publisher

-- The verdicts, by what the earlier observations of the record are.
pub data Judged (o : Observation) (prior : List Observation) : DedupVerdict → Type 0 where
  is_exact :
      (x : Observation)
      → Earliest (SameBytes o) x prior
      → x.publisher ≡ o.publisher
      → Judged o prior exact_duplicate
  is_syndicated :
      (x : Observation)
      → Earliest (SameBytes o) x prior
      → x.publisher ≢ o.publisher
      → Judged o prior syndicated_copy
  is_restated :
      (x : Observation)
      → All (λ y. ¬ SameBytes o y) prior
      → Earliest (SamePublisher o) x prior
      → x.record_hash ≡ o.record_hash
      → Judged o prior canonical_duplicate
  is_update :
      (x : Observation)
      → All (λ y. ¬ SameBytes o y) prior
      → Earliest (SamePublisher o) x prior
      → x.record_hash ≢ o.record_hash
      → Judged o prior update
  is_independent :
      All (λ y. ¬ SameBytes o y) prior
      → All (λ y. ¬ SamePublisher o y) prior
      → Judged o prior independent_corroboration

module _ (P : Observation → Type 0) (p : Observation → Bool)
    (p_iff : (o : Observation) → (p o ≡ true) ↔ P o) where
  pub find-none : (os : List Observation) → find p os ≡ none → All (λ o. ¬ P o) os
  find-none [] h = tt
  find-none (o ∷ os) h = (λ q. ground (arith, (p_iff o).1 q), find-none os (ground arith))

  pub find-some : (os : List Observation) {x : Observation} → find p os ≡ some x → Earliest P x os
  find-some [] h = absurd (ground arith)
  find-some (o ∷ os) {x} h = elim (Bool-cases (p o)) [
    | inl hit ↦
        let e : o ≡ x = ground arith in
        record {
          before = [];
          after = os;
          split = ap (λ y. y ∷ os) e;
          hit = (p_iff x).0 (ap p (sym e) ∙ hit);
          misses = tt;
        }
    | inr miss ↦
        let r = find-some os {x = x} (ground arith) in
        record {
          before = o ∷ r.before;
          after = r.after;
          split = ap (λ y. o ∷ y) r.split;
          hit = r.hit;
          misses = (λ q. ground (arith, (p_iff o).1 q), r.misses);
        }
  ]

  find-before :
      (before after : List Observation) (x : Observation)
      → All (λ y. ¬ P y) before
      → P x
      → find p (before ++ x ∷ after) ≡ some x
  find-before [] after x a h = rw ((p_iff x).1 h) refl
  find-before (y ∷ before) after x a h = elim (Bool-cases (p y)) [
    | inl e ↦ absurd (a.0 ((p_iff y).0 e))
    | inr e ↦ rw e (find-before before after x a.1 h)
  ]

  pub find-Earliest :
      {x : Observation} {os : List Observation} → Earliest P x os → find p os ≡ some x
  find-Earliest {x} e = rw e.split (find-before e.before e.after x e.misses e.hit)

  find-All : (os : List Observation) → All (λ y. ¬ P y) os → find p os ≡ none
  find-All [] a = refl
  find-All (o ∷ os) a = elim (Bool-cases (p o)) [
    | inl e ↦ absurd (a.0 ((p_iff o).0 e))
    | inr e ↦ rw e (find-All os a.1)
  ]

bytes_iff : (o x : Observation) → ((x.content_hash == o.content_hash) ≡ true) ↔ SameBytes o x
bytes_iff o x = (λ h. ground arith, λ h. ground arith)

publisher_iff : (o x : Observation) → (text_eq x.publisher o.publisher ≡ true) ↔ SamePublisher o x
publisher_iff o x = text_eq_iff x.publisher o.publisher

-- `judge` gives the verdict that the earlier observations of the record call for: the earliest one
-- with the same bytes decides between an exact duplicate and a syndicated copy; else the earliest
-- one from the same publisher decides between a restatement and an update; else, the evidence being
-- new in both, it corroborates.
pub judge-Judged :
    (o : Observation) (prior : List Observation) → Judged o prior (judge o prior).verdict
unfolding judge
judge-Judged o [] = is_independent tt tt
judge-Judged o (first ∷ rest) =
    let prior = first ∷ rest in
    elim (Option-cases (find (λ x. x.content_hash == o.content_hash) prior)) [
      | inr (x, e) ↦ same_bytes x (find-some (SameBytes o) _ (bytes_iff o) prior e) e
      | inl n ↦ elim (Option-cases (find (λ x. text_eq x.publisher o.publisher) prior)) [
        | inr (x, e) ↦
            same_publisher x (find-none (SameBytes o) _ (bytes_iff o) prior n)
              (find-some (SamePublisher o) _ (publisher_iff o) prior e) n e
        | inl m ↦
            rw (judge, n, m)
              (is_independent (find-none (SameBytes o) _ (bytes_iff o) prior n)
                (find-none (SamePublisher o) _ (publisher_iff o) prior m))
      ]
    ]
  where
    same_bytes :
        (x : Observation)
        → Earliest (SameBytes o) x (first ∷ rest)
        → find (λ x. x.content_hash == o.content_hash) (first ∷ rest) ≡ some x
        → Judged o (first ∷ rest) (judge o (first ∷ rest)).verdict
    same_bytes x f e = elim (Bool-cases (text_eq x.publisher o.publisher)) [
      | inl q ↦ rw (judge, e, q) (is_exact x f ((publisher_iff o x).0 q))
      | inr q ↦ rw (judge, e, q) (is_syndicated x f (λ h. ground (arith, (publisher_iff o x).1 h)))
    ]

    same_publisher :
        (x : Observation)
        → All (λ y. ¬ SameBytes o y) (first ∷ rest)
        → Earliest (SamePublisher o) x (first ∷ rest)
        → find (λ x. x.content_hash == o.content_hash) (first ∷ rest) ≡ none
        → find (λ x. text_eq x.publisher o.publisher) (first ∷ rest) ≡ some x
        → Judged o (first ∷ rest) (judge o (first ∷ rest)).verdict
    same_publisher x fresh f n e = elim (Bool-cases (x.record_hash == o.record_hash)) [
      | inl q ↦ rw (judge, n, e, q) (is_restated x fresh f (ground arith))
      | inr q ↦ rw (judge, n, e, q) (is_update x fresh f (λ h. ground arith))
    ]

judge_syndicated :
    (o x : Observation) (prior : List Observation)
    → find (λ y. y.content_hash == o.content_hash) prior ≡ some x
    → text_eq x.publisher o.publisher ≡ false
    → (judge o prior).verdict ≡ syndicated_copy
unfolding judge
judge_syndicated o x [] e q = cc
judge_syndicated o x (y ∷ prior) e q = rw (judge, e, q) refl

judge_update :
    (o x : Observation) (prior : List Observation)
    → find (λ y. y.content_hash == o.content_hash) prior ≡ none
    → find (λ y. text_eq y.publisher o.publisher) prior ≡ some x
    → (x.record_hash == o.record_hash) ≡ false
    → (judge o prior).verdict ≡ update
unfolding judge
judge_update o x [] n e q = cc
judge_update o x (y ∷ prior) n e q = rw (judge, n, e, q) refl

-- A document that its syndicator sends again, byte for byte, is judged a syndicated copy once more
-- and counted as new evidence, when another publisher sent those bytes first: the verdict does not
-- become an exact duplicate, although an earlier observation has the same bytes and publisher.
resent_copy :
    (o x y : Observation) (prior : List Observation)
    → Earliest (SameBytes o) x prior
    → x.publisher ≢ o.publisher
    → Memᴰ y prior
    → SameBytes o y
    → SamePublisher o y
    → ((judge o prior).verdict ≡ syndicated_copy) × (is_new_evidence (judge o prior).verdict ≡ true)
unfolding is_new_evidence
resent_copy o x y prior f q m b p =
    let e = find-Earliest (SameBytes o) _ (bytes_iff o) f in
    let v = judge_syndicated o x prior e (ground (arith, publisher_iff o x)) in (v, rw v refl)

-- A publisher that restates its latest content in new bytes is judged to update the record again,
-- when its earliest observation of the record said otherwise.
restated_update :
    (o x y : Observation) (prior : List Observation)
    → All (λ z. ¬ SameBytes o z) prior
    → Earliest (SamePublisher o) x prior
    → x.record_hash ≢ o.record_hash
    → Memᴰ y prior
    → SamePublisher o y
    → y.record_hash ≡ o.record_hash
    → (judge o prior).verdict ≡ update
restated_update o x y prior a f q m p r =
    judge_update o x prior (find-All (SameBytes o) _ (bytes_iff o) prior a)
      (find-Earliest (SamePublisher o) _ (publisher_iff o) f) (ground arith)
