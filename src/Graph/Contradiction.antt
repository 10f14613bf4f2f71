-- ===== src/Graph/Contradiction.antt =====
-- crates/brolga-graph/src/contradiction.rs: what two claims about a subject say of one another.
-- An `Id<Claim>` is a number, and each fixed text that a decision gives as its reason is one of the
-- `Reason`s. `Disposition` is that of crates/brolga-model/src/status.rs.
pub mod Relate
pub mod Symmetric
pub mod Opposed
pub mod Conflicts
pub mod Quoted
pub mod Review
use brolga.Prelude.{
  ℕ, ◌==◌, ◌++◌, leb, ltb, Bool, true, false, ◌&&◌, ◌||◌, not, Option, none, some, List, [], ◌∷◌,
  Text, codes, text_eq, if◌then◌else◌, take, length,
}
use brolga.Model.Status.{LifecycleStatus}
use brolga.Model.Temporal.{Timestamp}
use brolga.Model.Marking.{TlpLevel, tlp_rank, MarkingSet, most_restrictive_tlp}
use brolga.Graph.Traverse.Edges.{NodeRef, node_eq}

pub data Disposition : Type 0 where
  malicious suspicious benign allow_listed unknown : Disposition

-- The derived order, as that of a number.
abbrev pub disposition_rank : Disposition → ℕ
disposition_rank malicious = 0
disposition_rank suspicious = 1
disposition_rank benign = 2
disposition_rank allow_listed = 3
disposition_rank unknown = 4

abbrev pub disposition_text : Disposition → Text
disposition_text malicious = codes "malicious"
disposition_text suspicious = codes "suspicious"
disposition_text benign = codes "benign"
disposition_text allow_listed = codes "allow_listed"
disposition_text unknown = codes "unknown"

pub data Assertion : Type 0 where
  disposition : Disposition → Assertion
  attribute : (name value : Text) → Assertion
  narrative : Text → Assertion

pub data ClaimStance : Type 0 where
  observed reported inferred analyst : ClaimStance

abbrev pub is_analyst : ClaimStance → Bool
is_analyst analyst = true
is_analyst _ = false

pub data Predicate : Type 0 where
  of_disposition : Predicate
  of_attribute : Text → Predicate

abbrev pub predicate_of : Assertion → Option Predicate
predicate_of (disposition d) = some of_disposition
predicate_of (attribute name value) = some (of_attribute name)
predicate_of (narrative text) = none

abbrev pub predicate_eq : Predicate → Predicate → Bool
predicate_eq of_disposition of_disposition = true
predicate_eq of_disposition (of_attribute name) = false
predicate_eq (of_attribute name) of_disposition = false
predicate_eq (of_attribute a) (of_attribute b) = text_eq a b

pub data ClaimRelation : Type 0 where
  agrees compatible conflicts supersedes revoked analyst_override unrelated undecided :
      ClaimRelation

abbrev pub is_contradiction : ClaimRelation → Bool
is_contradiction conflicts = true
is_contradiction _ = false

pub data Reason : Type 0 where
  other_subjects no_slot other_questions withdrawn replaced changed_mind analyst_decided : Reason
  same_value multi_valued one_valued no_rule : Reason
  differ_in_strength malicious_benign malicious_allowed suspicious_benign suspicious_allowed :
      Reason
  benign_allowed not_assessed no_pair_rule : Reason

pub record ReviewedClaim : Type 0 where
  pub id : ℕ
  pub subject : NodeRef
  pub assertion : Assertion
  pub stance : ClaimStance
  pub status : LifecycleStatus
  pub publisher : Text
  pub asserted_at : Option Timestamp
  pub markings : MarkingSet

pub record ContradictionDecision : Type 0 where
  pub subject : NodeRef
  pub predicate : Option Predicate
  pub left : ℕ
  pub right : ℕ
  pub relation : ClaimRelation
  pub reason : Reason
  pub evidence : Option Text
  pub evidence_withheld : Bool

pub record ContradictionRules : Type 0 where
  pub single_valued : List Text
  pub evidence_ceiling : TlpLevel

abbrev pub default_rules : ContradictionRules
default_rules = record { single_valued = []; evidence_ceiling = TlpLevel.amber }

abbrev pub mem_text : Text → List Text → Bool
mem_text t [] = false
mem_text t (s ∷ ss) = text_eq s t || mem_text t ss

-- The derived equalities.
unfoldable pub same_assertion : Assertion → Assertion → Bool
same_assertion (disposition a) (disposition b) = disposition_rank a == disposition_rank b
same_assertion (attribute a v) (attribute b w) = text_eq a b && text_eq v w
same_assertion (narrative a) (narrative b) = text_eq a b
same_assertion _ _ = false

abbrev pub is_revoked : LifecycleStatus → Bool
is_revoked LifecycleStatus.revoked = true
is_revoked _ = false

abbrev pub is_superseded : LifecycleStatus → Bool
is_superseded LifecycleStatus.superseded = true
is_superseded _ = false

abbrev pub instants_differ : Option Timestamp → Option Timestamp → Bool
instants_differ (some a) (some b) = not (a.seconds == b.seconds && a.nanosecond == b.nanosecond)
instants_differ (some a) none = false
instants_differ none b = false

abbrev pub ordered_in_time : ReviewedClaim → ReviewedClaim → Bool
ordered_in_time a b = instants_differ a.asserted_at b.asserted_at

abbrev pub rendered : Assertion → Text
rendered (disposition d) = disposition_text d
rendered (attribute name value) = name ++ codes "=" ++ value
rendered (narrative text) = text

abbrev pub quoted_pair : Assertion → Assertion → Text
quoted_pair a b = rendered a ++ codes " vs " ++ rendered b

-- `char::is_control`, as the standard library documents it.
abbrev pub is_control : ℕ → Bool
is_control c = ltb c 32 || (leb 127 c && leb c 159)

abbrev pub printable : Text → Text
printable [] = []
printable (c ∷ s) = let rest = printable s in if is_control c then rest else c ∷ rest

unfoldable pub bounded : Text → Text
bounded s = take 200 (printable s)

abbrev pub rule_of_ordered : Disposition → Disposition → ClaimRelation × Reason
rule_of_ordered malicious suspicious = (compatible, differ_in_strength)
rule_of_ordered malicious benign = (conflicts, malicious_benign)
rule_of_ordered malicious allow_listed = (conflicts, malicious_allowed)
rule_of_ordered suspicious benign = (conflicts, suspicious_benign)
rule_of_ordered suspicious allow_listed = (conflicts, suspicious_allowed)
rule_of_ordered benign allow_listed = (compatible, benign_allowed)
rule_of_ordered _ unknown = (compatible, not_assessed)
rule_of_ordered _ _ = (undecided, no_pair_rule)

unfoldable pub disposition_rule : Disposition → Disposition → ClaimRelation × Reason
disposition_rule a b =
    if leb (disposition_rank a) (disposition_rank b)
    then rule_of_ordered a b
    else rule_of_ordered b a

abbrev pub exceeds : TlpLevel → Option TlpLevel → Bool
exceeds ceiling none = false
exceeds ceiling (some level) = ltb (tlp_rank ceiling) (tlp_rank level)

abbrev pub bool_eq : Bool → Bool → Bool
bool_eq true b = b
bool_eq false b = not b

-- What of the evidence a decision may quote, and whether there was anything to quote.
abbrev pub allowed : Bool → Option Text → Option Text
allowed forbidden none = none
allowed forbidden (some text) = if forbidden then none else some (bounded text)

abbrev pub is_quote : Option Text → Bool
is_quote none = false
is_quote (some text) = true
