-- ===== src/Tests/Contradiction.antt =====
-- Runs of crates/brolga-graph/src/contradiction.rs.
use brolga.Prelude.{◌≡◌, refl, true, ◌||◌, none, [], ◌∷◌, Text, codes, text_eq}
use brolga.Model.Status.{LifecycleStatus}
use brolga.Model.Marking.{TlpLevel, tlp, most_restrictive_tlp}
use brolga.Graph.Traverse.Edges.{NodeRef, entity, observable, node_eq}
use brolga.Graph.Contradiction.{
  malicious, benign, disposition, reported, ReviewedClaim, default_rules, is_contradiction,
}
use brolga.Graph.Contradiction.Relate.{relate}
use brolga.Graph.Contradiction.Conflicts.{disagree, relate-disagree}
use brolga.Graph.Contradiction.Quoted.{QuotesFor, over, relate-QuotesFor}

abbrev accusation : ReviewedClaim
accusation = record {
  id = 2;
  subject = observable 7;
  assertion = disposition malicious;
  stance = reported;
  status = LifecycleStatus.active;
  publisher = codes "a";
  asserted_at = none;
  markings = tlp TlpLevel.red ∷ [];
}

abbrev clearance : ReviewedClaim
clearance = record accusation {
  id = 1;
  assertion = disposition benign;
  publisher = codes "b";
  markings = [];
}

abbrev text_of : NodeRef → Text
text_of (entity n) = codes "entity"
text_of (observable n) = codes "observable"

conflict_test : is_contradiction (relate default_rules accusation clearance).relation ≡ true
unfolding relate node_eq text_eq
conflict_test = refl

withheld_test : (relate default_rules accusation clearance).evidence ≡ none
unfolding relate node_eq text_eq most_restrictive_tlp
withheld_test = refl

relate-disagree_example :
    is_contradiction (relate default_rules accusation clearance).relation
    ≡ disagree default_rules accusation clearance
relate-disagree_example = relate-disagree default_rules accusation clearance

relate-QuotesFor_example :
    QuotesFor
      (over default_rules accusation || over default_rules clearance)
      (relate default_rules accusation clearance)
relate-QuotesFor_example = relate-QuotesFor default_rules accusation clearance
