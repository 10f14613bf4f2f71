-- ===== src/Graph/Contradiction/Opposed.antt =====
-- Which values of crates/brolga-graph/src/contradiction.rs cannot both stand.
use brolga.Prelude.{
  ◌==◌, ◌≡◌, refl, ap, inl, inr, Bool, true, false, ◌&&◌, ◌||◌, not, Option, none, some, Text,
  text_eq, text_eq_iff, Bool-cases, arith,
}
use brolga.Graph.Contradiction.{
  Disposition, malicious, suspicious, benign, allow_listed, unknown, disposition_rank, Assertion,
  disposition, attribute, narrative, Predicate, predicate_of, predicate_eq, is_contradiction,
  ContradictionRules, mem_text, same_assertion, disposition_rule,
}
use brolga.Graph.Contradiction.Relate.{compare_values}

-- A finding against a subject, and one that clears it.
abbrev pub accuses : Disposition → Bool
accuses malicious = true
accuses suspicious = true
accuses _ = false

abbrev pub clears : Disposition → Bool
clears benign = true
clears allow_listed = true
clears _ = false

-- Values that cannot both stand: a finding against a subject and one that clears it, or two values
-- of an attribute that was declared to have one.
abbrev pub opposed : ContradictionRules → Assertion → Assertion → Bool
opposed rules (disposition a) (disposition b) = (accuses a && clears b) || (clears a && accuses b)
opposed rules (attribute a v) (attribute b w) =
    text_eq a b && not (text_eq v w) && mem_text a rules.single_valued
opposed rules _ _ = false

dispositions-opposed :
    (a b : Disposition)
    → is_contradiction (disposition_rule a b).0 && not (disposition_rank a == disposition_rank b)
      ≡ ((accuses a && clears b) || (clears a && accuses b))
unfolding disposition_rule
dispositions-opposed malicious malicious = refl
dispositions-opposed malicious suspicious = refl
dispositions-opposed malicious benign = refl
dispositions-opposed malicious allow_listed = refl
dispositions-opposed malicious unknown = refl
dispositions-opposed suspicious malicious = refl
dispositions-opposed suspicious suspicious = refl
dispositions-opposed suspicious benign = refl
dispositions-opposed suspicious allow_listed = refl
dispositions-opposed suspicious unknown = refl
dispositions-opposed benign malicious = refl
dispositions-opposed benign suspicious = refl
dispositions-opposed benign benign = refl
dispositions-opposed benign allow_listed = refl
dispositions-opposed benign unknown = refl
dispositions-opposed allow_listed malicious = refl
dispositions-opposed allow_listed suspicious = refl
dispositions-opposed allow_listed benign = refl
dispositions-opposed allow_listed allow_listed = refl
dispositions-opposed allow_listed unknown = refl
dispositions-opposed unknown malicious = refl
dispositions-opposed unknown suspicious = refl
dispositions-opposed unknown benign = refl
dispositions-opposed unknown allow_listed = refl
dispositions-opposed unknown unknown = refl

-- Whether both assert something in one slot.
abbrev pub one_slot : Option Predicate → Option Predicate → Bool
one_slot (some p) (some q) = predicate_eq p q
one_slot (some p) none = false
one_slot none q = false

pub compared-opposed :
    (rules : ContradictionRules) (x y : Assertion)
    → (one_slot (predicate_of x) (predicate_of y)
        && is_contradiction (compare_values rules x y).0
        && not (same_assertion x y))
      ≡ opposed rules x y
unfolding compare_values same_assertion
compared-opposed rules (disposition a) (disposition b) = dispositions-opposed a b
compared-opposed rules (disposition a) (attribute b w) = refl
compared-opposed rules (disposition a) (narrative b) = refl
compared-opposed rules (attribute a v) (disposition b) = refl
compared-opposed rules (attribute a v) (attribute b w) = ground arith
compared-opposed rules (attribute a v) (narrative b) = refl
compared-opposed rules (narrative a) (disposition b) = refl
compared-opposed rules (narrative a) (attribute b w) = refl
compared-opposed rules (narrative a) (narrative b) = refl

pub text_eq_comm : (s t : Text) → text_eq s t ≡ text_eq t s
text_eq_comm s t = ground (arith, text_eq_iff s t, text_eq_iff t s)

pub opposed_comm :
    (rules : ContradictionRules) (x y : Assertion) → opposed rules x y ≡ opposed rules y x
opposed_comm rules (disposition a) (disposition b) =
    crossed (accuses a) (clears a) (accuses b) (clears b)
  where
    crossed : (p q r s : Bool) → ((p && s) || (q && r)) ≡ ((r && q) || (s && p))
    crossed p q r s = ground arith
opposed_comm rules (disposition a) (attribute b w) = refl
opposed_comm rules (disposition a) (narrative b) = refl
opposed_comm rules (attribute a v) (disposition b) = refl
opposed_comm rules (attribute a v) (attribute b w) = elim (Bool-cases (text_eq a b)) [
  | inl q ↦
      let listed = ap (λ t. mem_text t rules.single_valued) ((text_eq_iff a b).0 q) in
      ground (arith, q, listed, text_eq_comm a b, text_eq_comm v w)
  | inr q ↦ ground (arith, q, text_eq_comm a b)
]
opposed_comm rules (attribute a v) (narrative b) = refl
opposed_comm rules (narrative a) (disposition b) = refl
opposed_comm rules (narrative a) (attribute b w) = refl
opposed_comm rules (narrative a) (narrative b) = refl
