-- ===== src/Graph/Dedup/Lineage.antt =====
-- The lineages that `Deduplicator::observe` of crates/brolga-graph/src/dedup.rs keeps, over any
-- sequence of observations.
use brolga.Prelude.{
  ℕ, suc, ◌+◌, ◌≤◌, ◌≡◌, ◌≢◌, refl, sym, ap, ◌⊎◌, inl, inr, Text, text_eq, text_eq_iff, Bool, true,
  false, ◌||◌, List, [], ◌∷◌, ◌++◌, arith, ◌==◌, if◌then◌else◌, All, Bool-cases, length,
  length-append,
}
use brolga.Graph.Dedup.{
  DedupVerdict, independent_corroboration, is_update, increases_corroboration, Observation,
  DedupDecision, RecordLineage, judge, extend, listed, corroboration,
}
use brolga.Graph.Dedup.Verdict.{
  Judged, is_exact, is_syndicated, is_restated, is_update as as_update, is_independent,
  judge-Judged,
}

-- How many decisions have a verdict.
abbrev pub count : (DedupVerdict → Bool) → List DedupDecision → ℕ
count p [] = 0
count p (d ∷ ds) = let rest = count p ds in if p d.verdict then suc rest else rest

count-append :
    (p : DedupVerdict → Bool) (ds : List DedupDecision) (d : DedupDecision)
    → count p (ds ++ d ∷ []) ≡ count p ds + (if p d.verdict then 1 else 0)
count-append p [] d = ground arith
count-append p (e ∷ ds) d = ground (arith, count-append p ds d)

abbrev pub publishes : Text → List Observation → Bool
publishes p [] = false
publishes p (o ∷ os) = text_eq p o.publisher || publishes p os

publishes-append :
    (p : Text) (os : List Observation) (o : Observation)
    → publishes p (os ++ o ∷ []) ≡ (publishes p os || text_eq p o.publisher)
publishes-append p [] o = ground arith
publishes-append p (x ∷ os) o = ground (arith, publishes-append p os o)

listed-append :
    (p : Text) (qs : List Text) (q : Text) → listed p (qs ++ q ∷ []) ≡ (listed p qs || text_eq p q)
listed-append p [] q = ground arith
listed-append p (x ∷ qs) q = ground (arith, listed-append p qs q)

-- No text stands twice in the list.
abbrev pub Distinct : List Text → Type 0
Distinct [] = Unit {0}
Distinct (q ∷ qs) = (listed q qs ≡ false) × Distinct qs

Distinct-append :
    (qs : List Text) (q : Text) → listed q qs ≡ false → Distinct qs → Distinct (qs ++ q ∷ [])
Distinct-append [] q h d = (refl, tt)
Distinct-append (x ∷ qs) q h d = (
  ground (arith, listed-append x qs q, text_eq_iff x q, text_eq_iff q x),
  Distinct-append qs q (ground arith) d.1,
)

abbrev pub started : List Observation → ℕ
started [] = 0
started (o ∷ os) = 1

-- What a lineage says of the observations of its record.
pub record Consistent (os : List Observation) (l : RecordLineage) : Type 0 where
  pub decided : length l.decisions ≡ length os
  pub of_seen : (p : Text) → listed p l.corroborating_publishers ≡ true → publishes p os ≡ true
  pub distinct : Distinct l.corroborating_publishers
  pub corroborated : corroboration l ≡ count increases_corroboration l.decisions
  pub versioned : length l.versions ≡ count is_update l.decisions + started os

not-publishes :
    (p : Text) (os : List Observation) → All (λ y. y.publisher ≢ p) os → publishes p os ≡ false
not-publishes p [] a = refl
not-publishes p (o ∷ os) a = elim (Bool-cases (text_eq p o.publisher)) [
  | inl e ↦ absurd (a.0 (sym ((text_eq_iff p o.publisher).0 e)))
  | inr e ↦ rw e (not-publishes p os a.1)
]

-- A verdict of independence is for a publisher not seen before.
independent-publishes :
    (o : Observation) (os : List Observation)
    → increases_corroboration (judge o os).verdict ≡ true
    → publishes o.publisher os ≡ false
unfolding increases_corroboration
independent-publishes o os = go (judge-Judged o os)
  where
    go :
        {v : DedupVerdict}
        → Judged o os v
        → increases_corroboration v ≡ true
        → publishes o.publisher os ≡ false
    go (is_exact x f q) h = cc
    go (is_syndicated x f q) h = cc
    go (is_restated x a f q) h = cc
    go (as_update x a f q) h = cc
    go (is_independent a b) h = not-publishes o.publisher os b

first-independent : (o : Observation) → (judge o []).verdict ≡ independent_corroboration
unfolding judge
first-independent o = refl

length-versions :
    (l : RecordLineage) (o : Observation) (d : DedupDecision) (vs : List ℕ)
    → l.versions ≡ vs
    → length (extend l o d).versions
      ≡ (if length vs == 0 then 1 else length vs + (if is_update d.verdict then 1 else 0))
unfolding extend
length-versions l o d [] e = rw e refl
length-versions l o d (v ∷ vs) e = elim (Bool-cases (is_update d.verdict)) [
  | inl u ↦ ground (arith, length-append (v ∷ vs) (o.record_hash ∷ []))
  | inr n ↦ ground arith
]

pub count-le : (p : DedupVerdict → Bool) (ds : List DedupDecision) → count p ds ≤ length ds
count-le p [] = omega arith
count-le p (d ∷ ds) = ground (arith, count-le p ds)

extend-versioned :
    (os : List Observation) (l : RecordLineage) (o : Observation)
    → Consistent os l
    → length (extend l o (judge o os)).versions
      ≡ count is_update (l.decisions ++ judge o os ∷ []) + started (os ++ o ∷ [])
extend-versioned [] l o c = ground (
  arith,
  length-versions l o (judge o []) l.versions refl,
  count-append is_update l.decisions (judge o []),
  count-le is_update l.decisions,
  first-independent o,
  c.decided,
  c.versioned,
)
extend-versioned (x ∷ os) l o c = ground (
  arith,
  length-versions l o (judge o (x ∷ os)) l.versions refl,
  count-append is_update l.decisions (judge o (x ∷ os)),
  c.versioned,
)

module _ (os : List Observation) (l : RecordLineage) (o : Observation) (c : Consistent os l) where
  fresh :
      increases_corroboration (judge o os).verdict ≡ true
      → listed o.publisher l.corroborating_publishers ≡ false
  fresh h = elim (Bool-cases (listed o.publisher l.corroborating_publishers)) [
    | inl e ↦ ground (arith, c.of_seen o.publisher e, independent-publishes o os h)
    | inr e ↦ e
  ]

  -- What `push_publisher` comes to.
  pub pushed :
      ((increases_corroboration (judge o os).verdict ≡ true)
        × ((extend l o (judge o os)).corroborating_publishers
            ≡ l.corroborating_publishers ++ o.publisher ∷ []))
      ⊎ ((increases_corroboration (judge o os).verdict ≡ false)
          × ((extend l o (judge o os)).corroborating_publishers ≡ l.corroborating_publishers))
  unfolding extend
  pushed = elim (Bool-cases (increases_corroboration (judge o os).verdict)) [
    | inl h ↦ inl (h, rw (h, fresh h, extend) refl)
    | inr h ↦ inr (h, rw (h, extend) refl)
  ]

  extend-of_seen :
      (p : Text)
      → listed p (extend l o (judge o os)).corroborating_publishers ≡ true
      → publishes p (os ++ o ∷ []) ≡ true
  extend-of_seen p = elim pushed [
    | inl (h, e) ↦ λ q. ground (
      arith,
      e,
      q,
      ap (listed p) e,
      publishes-append p os o,
      listed-append p l.corroborating_publishers o.publisher,
      c.of_seen p,
    )
    | inr (h, e) ↦ λ q. ground (arith, ap (listed p) e, publishes-append p os o, c.of_seen p)
  ]

  extend-Distinct : Distinct (extend l o (judge o os)).corroborating_publishers
  extend-Distinct = elim pushed [
    | inl (h, e) ↦
        rw e (Distinct-append l.corroborating_publishers o.publisher (fresh h) c.distinct)
    | inr (h, e) ↦ rw e c.distinct
  ]

  extend-corroborated :
      length (extend l o (judge o os)).corroborating_publishers
      ≡ count increases_corroboration (l.decisions ++ judge o os ∷ [])
  unfolding corroboration
  extend-corroborated = elim pushed [
    | inl (h, e) ↦ ground (
      arith,
      ap length e,
      length-append l.corroborating_publishers (o.publisher ∷ []),
      count-append increases_corroboration l.decisions (judge o os),
      c.corroborated,
    )
    | inr (h, e) ↦ ground (
      arith,
      ap length e,
      count-append increases_corroboration l.decisions (judge o os),
      c.corroborated,
    )
  ]

pub extend-Consistent :
    (os : List Observation) (l : RecordLineage) (o : Observation)
    → Consistent os l
    → Consistent (os ++ o ∷ []) (extend l o (judge o os))
unfolding extend corroboration
extend-Consistent os l o c = record {
  decided =
      omega
        (arith, length-append l.decisions (judge o os ∷ []), length-append os (o ∷ []), c.decided);
  of_seen = extend-of_seen os l o c;
  distinct = extend-Distinct os l o c;
  corroborated = extend-corroborated os l o c;
  versioned = extend-versioned os l o c;
}
