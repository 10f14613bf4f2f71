-- ===== src/Graph/Dedup.antt =====
-- crates/brolga-graph/src/dedup.rs: telling a duplicate from a corroboration.
-- Digests and `Id`s, which the code only compares, are numbers; names are texts.
pub mod Verdict
pub mod Lineage
pub mod Recounts
pub mod History
use brolga.Prelude.{
  ℕ, suc, ◌-◌, String, Text, text_eq, Bool, true, false, ◌&&◌, not, Option, none, some, List, [],
  ◌∷◌, ◌++◌, ◌==◌, if◌then◌else◌, length,
}
use brolga.Prelude.TextMap.{TextMap, get, insert}

pub data DedupVerdict : Type 0 where
  exact_duplicate canonical_duplicate syndicated_copy independent_corroboration update :
      DedupVerdict

unfoldable pub increases_corroboration : DedupVerdict → Bool
increases_corroboration independent_corroboration = true
increases_corroboration _ = false

unfoldable pub is_new_evidence : DedupVerdict → Bool
is_new_evidence exact_duplicate = false
is_new_evidence _ = true

unfoldable pub as_str : DedupVerdict → String
as_str exact_duplicate = "exact_duplicate"
as_str canonical_duplicate = "canonical_duplicate"
as_str syndicated_copy = "syndicated_copy"
as_str independent_corroboration = "independent_corroboration"
as_str update = "update"

abbrev pub is_update : DedupVerdict → Bool
is_update update = true
is_update _ = false

pub record Observation : Type 0 where
  pub record_id : Text
  pub source_object : ℕ
  pub content_hash : ℕ
  pub publisher : Text
  pub record_hash : ℕ

pub record DedupDecision : Type 0 where
  pub record_id : Text
  pub observation : ℕ
  pub compared_with : Option ℕ
  pub verdict : DedupVerdict
  pub algorithm : String
  pub algorithm_version : ℕ
  pub reason : String

pub record RecordLineage : Type 0 where
  pub decisions : List DedupDecision
  pub corroborating_publishers : List Text
  pub versions : List ℕ

unfoldable pub corroboration : RecordLineage → ℕ
corroboration l = length l.corroborating_publishers

unfoldable pub revisions : RecordLineage → ℕ
revisions l = length l.versions - 1

pub record Deduplicator : Type 0 where
  pub seen : TextMap (List Observation)
  pub lineages : TextMap RecordLineage

unfoldable pub new : Deduplicator
new = record { seen = []; lineages = [] }

abbrev pub find : (Observation → Bool) → List Observation → Option Observation
find p [] = none
find p (o ∷ os) = if p o then some o else find p os

abbrev decide : Observation → DedupVerdict → Option ℕ → String → DedupDecision
decide o verdict compared_with reason = record {
  record_id = o.record_id;
  observation = o.source_object;
  compared_with = compared_with;
  verdict = verdict;
  algorithm = "brolga.dedup.content-and-canonical";
  algorithm_version = 1;
  reason = reason;
}

-- The branch for evidence that was seen before, byte for byte.
judge_same_bytes : Observation → Observation → DedupDecision
judge_same_bytes o same_bytes =
    if text_eq same_bytes.publisher o.publisher
    then decide o exact_duplicate (some same_bytes.source_object)
        "byte-identical evidence from the same publisher: the same document, seen again"
    else decide o syndicated_copy (some same_bytes.source_object)
        "byte-identical evidence from a different publisher: a redistributed copy, not a second independent observation, because independent authors do not produce identical bytes"

-- The branch for other evidence from a publisher that was seen before.
judge_same_publisher : Observation → Observation → DedupDecision
judge_same_publisher o same_publisher =
    if same_publisher.record_hash == o.record_hash
    then decide o canonical_duplicate (some same_publisher.source_object)
        "different evidence from the same publisher producing an identical canonical record: the same assertion restated"
    else decide o update (some same_publisher.source_object)
        "the same publisher now asserts materially different content for this record; the earlier version stays traceable rather than being overwritten"

unfoldable pub judge : Observation → List Observation → DedupDecision
unfolding judge_same_bytes judge_same_publisher
judge o [] =
    decide o independent_corroboration none
      "first observation of this record, so it is its own first independent assertion"
judge o (first ∷ rest) = elim (find (λ seen. seen.content_hash == o.content_hash) (first ∷ rest)) [
  | some same_bytes ↦ judge_same_bytes o same_bytes
  | none ↦ elim (find (λ seen. text_eq seen.publisher o.publisher) (first ∷ rest)) [
    | some same_publisher ↦ judge_same_publisher o same_publisher
    | none ↦
        decide o independent_corroboration (some first.source_object)
          "different evidence from a publisher not seen before for this record: an independent observation of the same artefact"
  ]
]

abbrev pub or_default {ℓ} : {A : Type ℓ} → A → Option A → A
or_default d none = d
or_default d (some a) = a

abbrev pub no_lineage : RecordLineage
no_lineage = record { decisions = []; corroborating_publishers = []; versions = [] }

abbrev pub listed : Text → List Text → Bool
listed p [] = false
listed p (q ∷ qs) = if text_eq p q then true else listed p qs

push_version : RecordLineage → DedupVerdict → ℕ → List ℕ
push_version l v record_hash = elim l.versions [
  | [] ↦ record_hash ∷ []
  | first ∷ rest ↦ if is_update v then (first ∷ rest) ++ record_hash ∷ [] else first ∷ rest
]

push_publisher : RecordLineage → DedupVerdict → Text → List Text
push_publisher l v publisher =
    if increases_corroboration v && not (listed publisher l.corroborating_publishers)
    then l.corroborating_publishers ++ publisher ∷ []
    else l.corroborating_publishers

-- What one decision does to the record's lineage.
unfoldable pub extend : RecordLineage → Observation → DedupDecision → RecordLineage
unfolding push_version push_publisher increases_corroboration
extend l o d = record {
  decisions = l.decisions ++ d ∷ [];
  corroborating_publishers = push_publisher l d.verdict o.publisher;
  versions = push_version l d.verdict o.record_hash;
}

abbrev pub prior_of : Deduplicator → Text → List Observation
prior_of s k = or_default [] (get k s.seen)

abbrev pub lineage_of : Deduplicator → Text → RecordLineage
lineage_of s k = or_default no_lineage (get k s.lineages)

unfoldable pub observe : Deduplicator → Observation → Deduplicator × DedupDecision
observe s o =
    let prior = prior_of s o.record_id in
    let decision = judge o prior in
    (
      record {
        seen = insert o.record_id (prior ++ o ∷ []) s.seen;
        lineages = insert o.record_id (extend (lineage_of s o.record_id) o decision) s.lineages;
      },
      decision,
    )

-- `Deduplicator::lineage`
unfoldable pub lineage : Deduplicator → Text → Option RecordLineage
lineage s k = get k s.lineages

keys : TextMap RecordLineage → List Text
keys [] = []
keys ((k, l) ∷ m) = k ∷ keys m

-- `Deduplicator::record_ids`
unfoldable pub record_ids : Deduplicator → List Text
unfolding keys
record_ids s = keys s.lineages

flat_decisions : TextMap RecordLineage → List DedupDecision
flat_decisions [] = []
flat_decisions ((k, l) ∷ m) = l.decisions ++ flat_decisions m

-- `Deduplicator::decisions`
unfoldable pub decisions : Deduplicator → List DedupDecision
unfolding flat_decisions
decisions s = flat_decisions s.lineages

-- A sequence of observations.
unfoldable pub observe_all : Deduplicator → List Observation → Deduplicator
observe_all s [] = s
observe_all s (o ∷ os) = observe_all (observe s o).0 os
