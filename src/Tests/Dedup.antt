-- ===== src/Tests/Dedup.antt =====
-- Runs of crates/brolga-graph/src/dedup.rs.
use brolga.Prelude.{ℕ, ◌≡◌, refl, Text, codes, List, [], ◌∷◌, ◌++◌, text_eq}
use brolga.Prelude.TextMap.{get, insert}
use brolga.Graph.Dedup.{Observation, judge, extend, observe, new, observe_all, lineage_of}
use brolga.Graph.Dedup.Verdict.{Judged, Earliest, SameBytes, SamePublisher, judge-Judged}
use brolga.Graph.Dedup.Lineage.{Consistent}
use brolga.Graph.Dedup.Recounts.{Recounts}
use brolga.Graph.Dedup.History.{about, observe_all-Consistent}

abbrev seen_from : Text → ℕ → ℕ → Observation
seen_from publisher content record_hash = record {
  record_id = codes "r";
  source_object = content;
  content_hash = content;
  publisher = publisher;
  record_hash = record_hash;
}

abbrev alice : Text
alice = codes "a"

abbrev bob : Text
bob = codes "b"

-- Alice publishes, and Bob sends the same bytes twice.
abbrev copies : List Observation
copies = seen_from alice 1 7 ∷ seen_from bob 1 7 ∷ []

-- Alice publishes, says something else, and says that again in other bytes.
abbrev revised : List Observation
revised = seen_from alice 1 7 ∷ seen_from alice 2 8 ∷ []

judge-Judged_example : Judged (seen_from bob 1 7) copies (judge (seen_from bob 1 7) copies).verdict
judge-Judged_example = judge-Judged (seen_from bob 1 7) copies

Earliest-copy : Earliest (SameBytes (seen_from bob 1 7)) (seen_from alice 1 7) copies
Earliest-copy = record {
  before = [];
  after = seen_from bob 1 7 ∷ [];
  split = refl;
  hit = refl;
  misses = tt;
}

Earliest-of_alice : Earliest (SamePublisher (seen_from alice 3 8)) (seen_from alice 1 7) revised
Earliest-of_alice = record {
  before = [];
  after = seen_from alice 2 8 ∷ [];
  split = refl;
  hit = refl;
  misses = tt;
}

-- What alice says second, sent by her once more in other bytes, is a third version of the record.
abbrev restated : List Observation
restated = revised ++ seen_from alice 3 8 ∷ []

restated-versions : (lineage_of (observe_all new restated) (codes "r")).versions ≡ 7 ∷ 8 ∷ 8 ∷ []
unfolding observe_all observe judge extend new get insert text_eq
restated-versions = refl

observe_all-Consistent_example :
    Consistent (about (codes "r") restated) (lineage_of (observe_all new restated) (codes "r"))
    × Recounts (about (codes "r") restated) (lineage_of (observe_all new restated) (codes "r"))
observe_all-Consistent_example = observe_all-Consistent restated (codes "r")
