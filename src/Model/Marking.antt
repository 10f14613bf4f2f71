-- ===== src/Model/Marking.antt =====
-- crates/brolga-model/src/marking.rs: handling restrictions on a record.
-- A `BTreeSet<Marking>` is the list of its elements in the derived order, and a `ShortText` its text.
pub mod Union
use brolga.Prelude.{
  ℕ, Text, text_eq, text_leb, Bool, true, false, ◌&&◌, ◌||◌, not, Option, none, some, List, [], ◌∷◌,
  leb, ltb, ◌==◌, if◌then◌else◌,
}

pub data TlpLevel : Type 0 where
  clear green amber amber_strict red : TlpLevel

pub data PapLevel : Type 0 where
  clear green amber red : PapLevel

pub data Marking : Type 0 where
  tlp : TlpLevel → Marking
  pap : PapLevel → Marking
  handling attribution : Text → Marking

-- The derived orders.
abbrev pub tlp_rank : TlpLevel → ℕ
tlp_rank TlpLevel.clear = 0
tlp_rank TlpLevel.green = 1
tlp_rank TlpLevel.amber = 2
tlp_rank TlpLevel.amber_strict = 3
tlp_rank TlpLevel.red = 4

abbrev pub pap_rank : PapLevel → ℕ
pap_rank PapLevel.clear = 0
pap_rank PapLevel.green = 1
pap_rank PapLevel.amber = 2
pap_rank PapLevel.red = 3

abbrev pub variant : Marking → ℕ
variant (tlp l) = 0
variant (pap l) = 1
variant (handling t) = 2
variant (attribution t) = 3

unfoldable pub marking_eq : Marking → Marking → Bool
marking_eq (tlp a) (tlp b) = tlp_rank a == tlp_rank b
marking_eq (pap a) (pap b) = pap_rank a == pap_rank b
marking_eq (handling a) (handling b) = text_eq a b
marking_eq (attribution a) (attribution b) = text_eq a b
marking_eq _ _ = false

unfoldable pub marking_leb : Marking → Marking → Bool
marking_leb (tlp a) (tlp b) = leb (tlp_rank a) (tlp_rank b)
marking_leb (pap a) (pap b) = leb (pap_rank a) (pap_rank b)
marking_leb (handling a) (handling b) = text_leb a b
marking_leb (attribution a) (attribution b) = text_leb a b
marking_leb a b = ltb (variant a) (variant b)

abbrev pub MarkingSet : Type 0
MarkingSet = List Marking

unfoldable pub contains : Marking → MarkingSet → Bool
contains m [] = false
contains m (n ∷ s) = marking_eq m n || contains m s

unfoldable pub inserted : Marking → MarkingSet → MarkingSet
inserted m [] = m ∷ []
inserted m (n ∷ s) =
    let rest = inserted m s in
    if marking_eq m n then n ∷ s else if marking_leb m n then m ∷ n ∷ s else n ∷ rest

-- `MarkingSet::insert`, with whether the marking was newly inserted.
unfoldable pub insert : MarkingSet → Marking → MarkingSet × Bool
insert s m = (inserted m s, not (contains m s))

-- `MarkingSet::from_iter_of`
unfoldable pub from_iter_of : List Marking → MarkingSet
from_iter_of [] = []
from_iter_of (m ∷ ms) = inserted m (from_iter_of ms)

-- `MarkingSet::union`
unfoldable pub union : MarkingSet → MarkingSet → MarkingSet
union [] other = other
union (m ∷ s) other = inserted m (union s other)

abbrev pub stricter_tlp : TlpLevel → Option TlpLevel → Option TlpLevel
stricter_tlp l none = some l
stricter_tlp l (some k) = if leb (tlp_rank l) (tlp_rank k) then some k else some l

unfoldable pub most_restrictive_tlp : MarkingSet → Option TlpLevel
most_restrictive_tlp [] = none
most_restrictive_tlp (tlp l ∷ s) = stricter_tlp l (most_restrictive_tlp s)
most_restrictive_tlp (_ ∷ s) = most_restrictive_tlp s

abbrev pub stricter_pap : PapLevel → Option PapLevel → Option PapLevel
stricter_pap l none = some l
stricter_pap l (some k) = if leb (pap_rank l) (pap_rank k) then some k else some l

unfoldable pub most_restrictive_pap : MarkingSet → Option PapLevel
most_restrictive_pap [] = none
most_restrictive_pap (pap l ∷ s) = stricter_pap l (most_restrictive_pap s)
most_restrictive_pap (_ ∷ s) = most_restrictive_pap s
