-- ===== src/Graph/Resolve/Review.antt =====
-- The review queue of `Resolver::resolve_all` in crates/brolga-graph/src/resolve.rs.
use mathlib.Core.List.{Perm}
use mathlib.Core.List.Perm
use brolga.Prelude.{
  ◌≡◌, inl, inr, text_eq_iff, text_leb_refl, text_leb_trans, text_leb_total, text_leb_antisymm,
  true, false, List, [], ◌∷◌, arith, Bool-cases, All,
}
use brolga.Graph.Resolve.{ResolutionState}
use brolga.Graph.Resolve.Signals.{Characters, ResolvableRecord}
use brolga.Graph.Resolve.Resolver.{
  ResolutionCandidate, precedes, queue, ranked, concluded_of, resolve_all,
}

precedes_trans :
    (a b c : ResolutionCandidate) → precedes a b ≡ true → precedes b c ≡ true → precedes a c ≡ true
precedes_trans a b c h k = ground (
  arith,
  h,
  k,
  text_eq_iff a.left b.left,
  text_eq_iff b.left c.left,
  text_eq_iff a.left c.left,
  text_leb_trans a.right b.right c.right,
  text_leb_trans c.left a.left b.left,
  text_leb_trans b.left c.left a.left,
  text_leb_total b.left a.left,
  text_leb_total c.left b.left,
  text_leb_antisymm a.left b.left,
)

precedes_total : (a b : ResolutionCandidate) → precedes a b ≡ false → precedes b a ≡ true
precedes_total a b h = ground (
  arith,
  h,
  text_eq_iff a.left b.left,
  text_eq_iff b.left a.left,
  text_leb_antisymm b.left a.left,
  text_leb_refl a.left,
  text_leb_total a.left b.left,
  text_leb_total a.right b.right,
)

-- Each conclusion precedes all that come after it.
abbrev pub IsRanked : List ResolutionCandidate → Type 0
IsRanked [] = Unit
IsRanked (a ∷ l) = All (λ b. precedes a b ≡ true) l × IsRanked l

All-precedes :
    (a b : ResolutionCandidate) (l : List ResolutionCandidate)
    → precedes a b ≡ true
    → All (λ c. precedes b c ≡ true) l
    → All (λ c. precedes a c ≡ true) l
All-precedes a b [] h k = tt
All-precedes a b (c ∷ l) h (p, k) = (precedes_trans a b c h p, All-precedes a b l h k)

All-queue :
    (b a : ResolutionCandidate) (l : List ResolutionCandidate)
    → precedes b a ≡ true
    → All (λ c. precedes b c ≡ true) l
    → All (λ c. precedes b c ≡ true) (queue a l)
unfolding queue
All-queue b a [] h k = (h, tt)
All-queue b a (c ∷ l) h (p, k) = elim (Bool-cases (precedes a c)) [
  | inl q ↦ rw q (h, (p, k))
  | inr q ↦ rw q (p, All-queue b a l h k)
]

queue-IsRanked :
    (a : ResolutionCandidate) (l : List ResolutionCandidate) → IsRanked l → IsRanked (queue a l)
unfolding queue
queue-IsRanked a [] h = (tt, tt)
queue-IsRanked a (b ∷ l) (p, h) = elim (Bool-cases (precedes a b)) [
  | inl q ↦ rw q ((q, All-precedes a b l q p), (p, h))
  | inr q ↦ rw q (All-queue b a l (precedes_total a b q) p, queue-IsRanked a l h)
]

ranked-IsRanked : (l : List ResolutionCandidate) → IsRanked (ranked l)
unfolding ranked
ranked-IsRanked [] = tt
ranked-IsRanked (a ∷ l) = queue-IsRanked a (ranked l) (ranked-IsRanked l)

queue-perm : (a : ResolutionCandidate) (l : List ResolutionCandidate) → Perm (queue a l) (a ∷ l)
unfolding queue
queue-perm a [] = Perm.refl (a ∷ [])
queue-perm a (b ∷ l) = elim (Bool-cases (precedes a b)) [
  | inl q ↦ rw q (Perm.refl (a ∷ b ∷ l))
  | inr q ↦ rw q (Perm.trans (Perm.cons b (queue-perm a l)) (Perm.swap a b l))
]

ranked-perm : (l : List ResolutionCandidate) → Perm (ranked l) l
unfolding ranked
ranked-perm [] = Perm.refl []
ranked-perm (a ∷ l) = Perm.trans (queue-perm a (ranked l)) (Perm.cons a (ranked-perm l))

-- The review queue holds what is concluded of every pair that is not distinct, each as often as it
-- is concluded, by score from the highest and then by identifiers.
resolve_all-IsRanked :
    (u : Characters) (s : ResolutionState) (records : List ResolvableRecord)
    → IsRanked (resolve_all u s records) × Perm (resolve_all u s records) (concluded_of u s records)
unfolding resolve_all
resolve_all-IsRanked u s records =
    (ranked-IsRanked (concluded_of u s records), ranked-perm (concluded_of u s records))
