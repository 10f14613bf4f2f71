-- ===== src/Model/Marking/Union.antt =====
-- What a union of marking sets holds, in crates/brolga-model/src/marking.rs.
use brolga.Prelude.{
  ◌≡◌, ◌↔◌, refl, ap, ◌∙◌, inl, inr, text_eq_iff, Bool, true, ◌&&◌, ◌||◌, Option, none, some, [],
  ◌∷◌, leb, arith, Bool-cases,
}
use brolga.Model.Marking.{
  TlpLevel, PapLevel, Marking, tlp, pap, handling, attribution, tlp_rank, pap_rank, marking_eq,
  MarkingSet, contains, inserted, union, most_restrictive_tlp, stricter_tlp,
}

tlp_rank-injective : (a b : TlpLevel) → tlp_rank a ≡ tlp_rank b → a ≡ b
tlp_rank-injective a b h = ground arith

pap_rank-injective : (a b : PapLevel) → pap_rank a ≡ pap_rank b → a ≡ b
pap_rank-injective a b h = ground arith

pub marking_eq_iff : (m n : Marking) → (marking_eq m n ≡ true) ↔ (m ≡ n)
unfolding marking_eq
marking_eq_iff (tlp a) (tlp b) =
    (λ h. ap tlp (tlp_rank-injective a b (ground (arith, h))), λ h. ground arith)
marking_eq_iff (pap a) (pap b) =
    (λ h. ap pap (pap_rank-injective a b (ground (arith, h))), λ h. ground arith)
marking_eq_iff (handling a) (handling b) =
    (λ h. ap handling ((text_eq_iff a b).0 h), λ h. ground (arith, text_eq_iff a b))
marking_eq_iff (attribution a) (attribution b) =
    (λ h. ap attribution ((text_eq_iff a b).0 h), λ h. ground (arith, text_eq_iff a b))
marking_eq_iff _ _ = (λ h. cc, λ h. cc)

pub contains-inserted :
    (k m : Marking) (s : MarkingSet) → contains k (inserted m s) ≡ (marking_eq k m || contains k s)
unfolding contains inserted
contains-inserted k m [] = refl
contains-inserted k m (n ∷ s) = ground (arith, marking_eq_iff m n, contains-inserted k m s)

-- A marking is in the union of two sets exactly when it is in one of them.
pub contains-union :
    (k : Marking) (a b : MarkingSet) → contains k (union a b) ≡ (contains k a || contains k b)
unfolding contains union
contains-union k [] b = refl
contains-union k (m ∷ a) b = ground (arith, contains-inserted k m (union a b), contains-union k a b)

-- Whether a level admits a marking.
abbrev pub admits : TlpLevel → Marking → Bool
admits level (tlp l) = leb (tlp_rank l) (tlp_rank level)
admits level _ = true

abbrev pub all_admitted : TlpLevel → MarkingSet → Bool
all_admitted level [] = true
all_admitted level (m ∷ s) = admits level m && all_admitted level s

-- Whether a level admits what governs a set, if something does.
abbrev pub within : TlpLevel → Option TlpLevel → Bool
within level none = true
within level (some l) = leb (tlp_rank l) (tlp_rank level)

within-stricter :
    (level l : TlpLevel) (o : Option TlpLevel)
    → within level (stricter_tlp l o) ≡ (leb (tlp_rank l) (tlp_rank level) && within level o)
within-stricter level l none = ground arith
within-stricter level l (some k) = elim (Bool-cases (leb (tlp_rank l) (tlp_rank k))) [
  | inl q ↦ rw q ground arith
  | inr q ↦ rw q ground arith
]

pub within-all_admitted :
    (level : TlpLevel) (s : MarkingSet)
    → within level (most_restrictive_tlp s) ≡ all_admitted level s
unfolding most_restrictive_tlp
within-all_admitted level [] = refl
within-all_admitted level (tlp l ∷ s) =
    within-stricter level l (most_restrictive_tlp s)
    ∙ ap (λ b. leb (tlp_rank l) (tlp_rank level) && b) (within-all_admitted level s)
within-all_admitted level (_ ∷ s) = within-all_admitted level s

pub all_admitted-inserted :
    (level : TlpLevel) (m : Marking) (s : MarkingSet)
    → all_admitted level (inserted m s) ≡ (admits level m && all_admitted level s)
unfolding inserted
all_admitted-inserted level m [] = refl
all_admitted-inserted level m (n ∷ s) = elim (Bool-cases (marking_eq m n)) [
  | inl q ↦ let e : m ≡ n = (marking_eq_iff m n).0 q in rw q (rw e ground arith)
  | inr q ↦ ground (arith, all_admitted-inserted level m s)
]

pub all_admitted-union :
    (level : TlpLevel) (a b : MarkingSet)
    → all_admitted level (union a b) ≡ (all_admitted level a && all_admitted level b)
unfolding union
all_admitted-union level [] b = refl
all_admitted-union level (m ∷ a) b =
    ground (arith, all_admitted-inserted level m (union a b), all_admitted-union level a b)

-- A level admits what governs the union of two sets exactly when it admits what governs each: the
-- union never loosens a restriction, and adds none.
pub within-union :
    (level : TlpLevel) (a b : MarkingSet)
    → within level (most_restrictive_tlp (union a b))
      ≡ (within level (most_restrictive_tlp a) && within level (most_restrictive_tlp b))
within-union level a b = ground (
  arith,
  within-all_admitted level (union a b),
  within-all_admitted level a,
  within-all_admitted level b,
  all_admitted-union level a b,
)
