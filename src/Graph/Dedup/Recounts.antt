-- ===== src/Graph/Dedup/Recounts.antt =====
-- The lineage that a sequence of observations comes to, told from the observations alone.
use brolga.Prelude.{
  ℕ, ◌≤◌, ◌≡◌, refl, ◌⊎◌, inl, inr, Text, true, false, List, [], ◌∷◌, ◌++◌, ◌==◌, text_eq, some,
  none, arith, length,
}
use brolga.Graph.Dedup.{
  DedupVerdict, exact_duplicate, canonical_duplicate, syndicated_copy, independent_corroboration,
  update, is_update, increases_corroboration, Observation, DedupDecision, RecordLineage, no_lineage,
  judge, judge_same_bytes, judge_same_publisher, find, extend, push_version,
}
use brolga.Graph.Dedup.Verdict.{Judged, judge-Judged}
use brolga.Graph.Dedup.Lineage.{Consistent, count-le, pushed}

-- The versions after one more observation: the first is a version, and so is an update.
abbrev pub NextVersions : List Observation → Observation → DedupVerdict → List ℕ → List ℕ → Type 0
NextVersions [] o v old new = new ≡ o.record_hash ∷ []
NextVersions (x ∷ os) o update old new = new ≡ old ++ o.record_hash ∷ []
NextVersions (x ∷ os) o exact_duplicate old new = new ≡ old
NextVersions (x ∷ os) o canonical_duplicate old new = new ≡ old
NextVersions (x ∷ os) o syndicated_copy old new = new ≡ old
NextVersions (x ∷ os) o independent_corroboration old new = new ≡ old

-- The corroborating publishers after one more observation.
abbrev pub NextPublishers : Observation → DedupVerdict → List Text → List Text → Type 0
NextPublishers o independent_corroboration old new = new ≡ old ++ o.publisher ∷ []
NextPublishers o exact_duplicate old new = new ≡ old
NextPublishers o canonical_duplicate old new = new ≡ old
NextPublishers o syndicated_copy old new = new ≡ old
NextPublishers o update old new = new ≡ old

-- The lineage that observations in this order come to: a decision on each, with the verdict that the
-- ones before it call for.
pub data Recounts : List Observation → RecordLineage → Type 0 where
  unseen : {l : RecordLineage} → l ≡ no_lineage → Recounts [] l
  seen :
      {os : List Observation} {k l : RecordLineage} (o : Observation) (d : DedupDecision)
      → Recounts os k
      → Judged o os d.verdict
      → d.observation ≡ o.source_object
      → l.decisions ≡ k.decisions ++ d ∷ []
      → NextPublishers o d.verdict k.corroborating_publishers l.corroborating_publishers
      → NextVersions os o d.verdict k.versions l.versions
      → Recounts (os ++ o ∷ []) l

empty-versions : (l : RecordLineage) → Consistent [] l → l.versions ≡ []
empty-versions l c =
    go l.versions (omega (arith, c.versioned, c.decided, count-le is_update l.decisions))
  where
    go : (vs : List ℕ) → length vs ≡ 0 → vs ≡ []
    go [] h = refl
    go (v ∷ vs) h = absurd (omega (arith, h))

some-versions :
    (x : Observation) (os : List Observation) (l : RecordLineage)
    → Consistent (x ∷ os) l
    → (v : ℕ) × (vs : List ℕ) × (l.versions ≡ v ∷ vs)
some-versions x os l c = go l.versions (omega (arith, c.versioned))
  where
    go : (vs : List ℕ) → 1 ≤ length vs → (w : ℕ) × (ws : List ℕ) × (vs ≡ w ∷ ws)
    go [] h = absurd (omega (arith, h))
    go (v ∷ vs) h = (v, vs, refl)

extend-NextVersions :
    (os : List Observation) (l : RecordLineage) (o : Observation) (d : DedupDecision)
    → Consistent os l
    → NextVersions os o d.verdict l.versions (extend l o d).versions
unfolding extend push_version
extend-NextVersions [] l o d c = rw (empty-versions l c) refl
extend-NextVersions (x ∷ os) l o d c =
    let (v, vs, e) = some-versions x os l c in go v vs e d.verdict refl
  where
    go :
        (v : ℕ) (vs : List ℕ)
        → l.versions ≡ v ∷ vs
        → (w : DedupVerdict) → d.verdict ≡ w
        → NextVersions (x ∷ os) o w l.versions (extend l o d).versions
    go v vs e update q = rw (e, q) refl
    go v vs e exact_duplicate q = rw (e, q) refl
    go v vs e canonical_duplicate q = rw (e, q) refl
    go v vs e syndicated_copy q = rw (e, q) refl
    go v vs e independent_corroboration q = rw (e, q) refl

extend-NextPublishers :
    (os : List Observation) (l : RecordLineage) (o : Observation)
    → Consistent os l
    → NextPublishers o
        (judge o os).verdict
        l.corroborating_publishers
        (extend l o (judge o os)).corroborating_publishers
unfolding increases_corroboration
extend-NextPublishers os l o c = go (judge o os).verdict refl (pushed os l o c)
  where
    go :
        (v : DedupVerdict)
        → (judge o os).verdict ≡ v
        → ((increases_corroboration (judge o os).verdict ≡ true)
            × ((extend l o (judge o os)).corroborating_publishers
                ≡ l.corroborating_publishers ++ o.publisher ∷ []))
          ⊎ ((increases_corroboration (judge o os).verdict ≡ false)
              × ((extend l o (judge o os)).corroborating_publishers ≡ l.corroborating_publishers))
        → NextPublishers o v l.corroborating_publishers
            (extend l o (judge o os)).corroborating_publishers
    go independent_corroboration q (inl (h, e)) = e
    go independent_corroboration q (inr (h, e)) = absurd (ground (arith, rw q at h))
    go exact_duplicate q (inl (h, e)) = absurd (ground (arith, rw q at h))
    go exact_duplicate q (inr (h, e)) = e
    go canonical_duplicate q (inl (h, e)) = absurd (ground (arith, rw q at h))
    go canonical_duplicate q (inr (h, e)) = e
    go syndicated_copy q (inl (h, e)) = absurd (ground (arith, rw q at h))
    go syndicated_copy q (inr (h, e)) = e
    go update q (inl (h, e)) = absurd (ground (arith, rw q at h))
    go update q (inr (h, e)) = e

judge-observation :
    (o : Observation) (os : List Observation) → (judge o os).observation ≡ o.source_object
unfolding judge judge_same_bytes judge_same_publisher
judge-observation o [] = refl
judge-observation o (first ∷ rest) =
    elim (find (λ seen. seen.content_hash == o.content_hash) (first ∷ rest)) [
      | some x ↦ elim (text_eq x.publisher o.publisher) [
        | true ↦ ground arith
        | false ↦ ground arith
      ]
      | none ↦ ground arith
    ]

pub extend-Recounts :
    (os : List Observation) (l : RecordLineage) (o : Observation)
    → Consistent os l
    → Recounts os l
    → Recounts (os ++ o ∷ []) (extend l o (judge o os))
unfolding extend
extend-Recounts os l o c r =
    seen o (judge o os) r (judge-Judged o os) (judge-observation o os) refl
      (extend-NextPublishers os l o c) (extend-NextVersions os l o (judge o os) c)
