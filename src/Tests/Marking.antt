-- ===== src/Tests/Marking.antt =====
-- Runs of crates/brolga-model/src/marking.rs, and of what crates/brolga-graph/src/resolve.rs and
-- traverse.rs do with markings.
use brolga.Prelude.{◌≡◌, refl, false, codes, Text, List, [], ◌∷◌, text_leb, text_eq}
use brolga.Model.Marking.{TlpLevel, tlp, handling, MarkingSet, most_restrictive_tlp}
use brolga.Graph.Resolve.Combined.{merged_sources, added, extended}
use brolga.Graph.Traverse.{permitting, permits}

abbrev amber : MarkingSet
amber = tlp TlpLevel.amber ∷ handling (codes "licensed") ∷ []

abbrev cleared : MarkingSet
cleared = tlp TlpLevel.clear ∷ []

abbrev left_sources : List Text
left_sources = codes "b" ∷ codes "a" ∷ []

abbrev right_sources : List Text
right_sources = codes "b" ∷ []

-- Two records of one source cite it once.
each_once : merged_sources left_sources right_sources ≡ codes "a" ∷ codes "b" ∷ []
unfolding merged_sources extended added text_eq text_leb
each_once = refl

-- A request cleared for GREEN does not see a record of AMBER.
withheld : permits (permitting TlpLevel.green) amber ≡ false
unfolding permits permitting most_restrictive_tlp
withheld = refl
