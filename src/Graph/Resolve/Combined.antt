-- ===== src/Graph/Resolve/Combined.antt =====
-- crates/brolga-graph/src/resolve.rs: the markings and the sources of a merged identity.
pub mod Kept
use brolga.Prelude.{
  Text, text_eq, text_leb, codes, Bool, true, false, ◌||◌, not, List, [], ◌∷◌, ◌++◌, map,
  if◌then◌else◌,
}
use brolga.Model.Marking.{
  TlpLevel, PapLevel, Marking, tlp, pap, handling, attribution, MarkingSet, inserted, union,
}
use brolga.Graph.Resolve.{contains}

-- The loop of `merged_markings` over the right set.
unfoldable pub insert_all : MarkingSet → MarkingSet → MarkingSet
insert_all merged [] = merged
insert_all merged (m ∷ s) = insert_all (inserted m merged) s

unfoldable pub merged_markings : MarkingSet → MarkingSet → MarkingSet
merged_markings left right = insert_all (union left right) right

-- `{level:?}`
abbrev tlp_debug : TlpLevel → Text
tlp_debug TlpLevel.clear = codes "Clear"
tlp_debug TlpLevel.green = codes "Green"
tlp_debug TlpLevel.amber = codes "Amber"
tlp_debug TlpLevel.amber_strict = codes "AmberStrict"
tlp_debug TlpLevel.red = codes "Red"

abbrev pap_debug : PapLevel → Text
pap_debug PapLevel.clear = codes "Clear"
pap_debug PapLevel.green = codes "Green"
pap_debug PapLevel.amber = codes "Amber"
pap_debug PapLevel.red = codes "Red"

unfoldable pub marking_key : Marking → Text
marking_key (tlp level) = codes "tlp:" ++ tlp_debug level
marking_key (pap level) = codes "pap:" ++ pap_debug level
marking_key (handling text) = codes "handling:" ++ text
marking_key (attribution text) = codes "attribution:" ++ text

unfoldable pub any_absent : MarkingSet → List Text → Bool
any_absent [] present = false
any_absent (m ∷ s) present = not (contains (marking_key m) present) || any_absent s present

unfoldable pub merge_loses_a_marking : MarkingSet → MarkingSet → MarkingSet → Bool
merge_loses_a_marking left right merged = any_absent (left ++ right) (map marking_key merged)

-- A `BTreeSet<String>` as its elements in order.
unfoldable pub added : Text → List Text → List Text
added t [] = t ∷ []
added t (x ∷ s) =
    let rest = added t s in
    if text_eq t x then x ∷ s else if text_leb t x then t ∷ x ∷ s else x ∷ rest

unfoldable pub extended : List Text → List Text → List Text
extended s [] = s
extended s (t ∷ ts) = extended (added t s) ts

unfoldable pub merged_sources : List Text → List Text → List Text
merged_sources left right = extended (extended [] left) right
