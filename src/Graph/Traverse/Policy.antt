-- ===== src/Graph/Traverse/Policy.antt =====
-- Who may see a merged record, by crates/brolga-graph/src/traverse.rs and resolve.rs.
use brolga.Prelude.{◌≡◌, refl, ◌∙◌, ◌&&◌, Option, none, some, arith, [], ◌∷◌}
use brolga.Model.Marking.{TlpLevel, MarkingSet, most_restrictive_tlp, union, inserted}
use brolga.Model.Marking.Union.{
  all_admitted, within, within-all_admitted, all_admitted-inserted, all_admitted-union,
}
use brolga.Graph.Resolve.Combined.{merged_markings, insert_all}
use brolga.Graph.Traverse.{TraversalPolicy, is_cleared, permits}

is_cleared-within :
    (level : TlpLevel) (o : Option TlpLevel) → is_cleared (some level) o ≡ within level o
is_cleared-within level none = refl
is_cleared-within level (some l) = refl

all_admitted-insert_all :
    (level : TlpLevel) (s t : MarkingSet)
    → all_admitted level (insert_all s t) ≡ (all_admitted level s && all_admitted level t)
unfolding insert_all
all_admitted-insert_all level s [] = ground arith
all_admitted-insert_all level s (m ∷ t) =
    ground (arith, all_admitted-insert_all level (inserted m s) t, all_admitted-inserted level m s)

all_admitted-permits :
    (level : TlpLevel) (s : MarkingSet)
    → is_cleared (some level) (most_restrictive_tlp s) ≡ all_admitted level s
all_admitted-permits level s =
    is_cleared-within level (most_restrictive_tlp s) ∙ within-all_admitted level s

-- A policy lets a record with the markings of a merged identity be seen exactly when it lets both of
-- the records that were merged be seen.
permits-merged_markings :
    (policy : TraversalPolicy) (left right : MarkingSet)
    → permits policy (merged_markings left right) ≡ (permits policy left && permits policy right)
unfolding permits merged_markings
permits-merged_markings policy left right = go policy.permitted_tlp
  where
    go :
        (o : Option TlpLevel)
        → is_cleared o (most_restrictive_tlp (merged_markings left right))
          ≡ (is_cleared o (most_restrictive_tlp left) && is_cleared o (most_restrictive_tlp right))
    go none = refl
    go (some level) = ground (
      arith,
      all_admitted-permits level (insert_all (union left right) right),
      all_admitted-permits level left,
      all_admitted-permits level right,
      all_admitted-insert_all level (union left right) right,
      all_admitted-union level left right,
    )
