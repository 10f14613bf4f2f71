-- ===== src/Graph/Resolve/Chain.antt =====
-- Chains of merges in crates/brolga-graph/src/resolve.rs: they fall, so they end.
use brolga.Prelude.{
  ℕ, zero, suc, ◌+◌, ◌≤◌, ◌<◌, ◌≡◌, ◌≢◌, refl, sym, ap, ◌∙◌, ◌⊎◌, inl, inr, Text, text_eq,
  text_eq_iff, text_leb, text_leb_refl, text_leb_trans, text_leb_antisymm, true, false, none, some,
  [], ◌∷◌, arith, if◌then◌else◌, Bool-cases, Option-cases, length, subst,
}
use brolga.Prelude.TextMap.{TextMap, get}
use brolga.Graph.Resolve.{ResolutionState, chase, canonical_identity}

-- No identity was merged into a later one.
abbrev pub Falls : TextMap Text → Type 0
Falls m = (k v : Text) → get k m ≡ some v → text_leb v k ≡ true

-- Nothing is merged into another from here on.
abbrev pub IsRoot : TextMap Text → Text → Type 0
IsRoot m k = (get k m ≡ none) ⊎ (get k m ≡ some k)

-- How many of the merged identities do not come after a text.
abbrev pub below : Text → TextMap Text → ℕ
below t [] = 0
below t ((j, v) ∷ m) = (if text_leb j t then 1 else 0) + below t m

below-le : (t : Text) (m : TextMap Text) → below t m ≤ length m
below-le t [] = omega arith
below-le t ((j, v) ∷ m) = ground (arith, below-le t m)

below_mono : (t u : Text) (m : TextMap Text) → text_leb t u ≡ true → below t m ≤ below u m
below_mono t u [] h = omega arith
below_mono t u ((j, v) ∷ m) h = ground (arith, below_mono t u m, text_leb_trans j t u)

-- A step down a chain passes at least one of them.
below_lt :
    (t u v : Text) (m : TextMap Text)
    → get u m ≡ some v
    → text_leb t u ≡ true
    → t ≢ u
    → below t m < below u m
unfolding get
below_lt t u v [] e h n = absurd (ground arith)
below_lt t u v ((j, w) ∷ m) e h n = elim (Bool-cases (text_eq u j)) [
  | inl q ↦
      let p : u ≡ j = (text_eq_iff u j).0 q in
      ground (
        arith,
        below_mono t u m,
        subst (λ x. text_leb x u ≡ true) p (text_leb_refl u),
        ap (λ x. text_leb x t) p,
        text_leb_antisymm t u,
        text_eq_iff t u,
      )
  | inr q ↦ ground (arith, below_lt t u v m, text_leb_trans j t u)
]

-- A chain that has rounds enough ends at a root, that is no later than its start.
chase-IsRoot :
    (n : ℕ) (m : TextMap Text) (k : Text)
    → Falls m
    → below k m < n
    → IsRoot m (chase n m k) × (text_leb (chase n m k) k ≡ true)
unfolding chase
chase-IsRoot zero m k f b = absurd (omega arith)
chase-IsRoot (suc n) m k f b = elim (Option-cases (get k m)) [
  | inl e ↦ rw (e, chase) (inl e, text_leb_refl k)
  | inr (v, e) ↦ elim (Bool-cases (text_eq v k)) [
    | inl q ↦ rw (chase, e, q) (inr (e ∙ ap some ((text_eq_iff v k).0 q)), text_leb_refl k)
    | inr q ↦
        let down = below_lt v k v m e (f k v e) (λ p. ground (arith, p, text_eq_iff v k)) in
        let (root, le) = chase-IsRoot n m v f (omega arith) in
        rw (chase, e, q) (root, text_leb_trans (chase n m v) v k le (f k v e))
  ]
]

-- More rounds than enough change nothing.
pub chase_rounds :
    (n n' : ℕ) (m : TextMap Text) (k : Text)
    → Falls m
    → below k m < n
    → below k m < n'
    → chase n m k ≡ chase n' m k
unfolding chase
chase_rounds zero n' m k f b b' = absurd (omega arith)
chase_rounds (suc n) zero m k f b b' = absurd (omega arith)
chase_rounds (suc n) (suc n') m k f b b' = elim (Option-cases (get k m)) [
  | inl e ↦ rw (chase, e) refl
  | inr (v, e) ↦ elim (Bool-cases (text_eq v k)) [
    | inl q ↦ rw (chase, e, q) refl
    | inr q ↦
        let down = below_lt v k v m e (f k v e) (λ p. ground (arith, p, text_eq_iff v k)) in
        rw (chase, e, q) (chase_rounds n n' m v f (omega arith) (omega arith))
  ]
]

chase-root : (n : ℕ) (m : TextMap Text) (k : Text) → IsRoot m k → chase (suc n) m k ≡ k
unfolding chase
chase-root n m k (inl e) = rw (chase, e) refl
chase-root n m k (inr e) = rw (chase, e, (text_eq_iff k k).1 refl) refl

chase-next :
    (n : ℕ) (m : TextMap Text) (k v : Text)
    → get k m ≡ some v
    → text_eq v k ≡ false
    → chase (suc n) m k ≡ chase n m v
unfolding chase
chase-next n m k v e q = rw (chase, e, q) refl

pub canonical_of_root :
    (s : ResolutionState) (k : Text) → IsRoot s.merges k → canonical_identity s k ≡ k
unfolding canonical_identity
canonical_of_root s k r = chase-root (length s.merges) s.merges k r

module _ (s : ResolutionState) (f : Falls s.merges) where
  -- In a state whose merges fall, the canonical identity is a root no later than the identity: the
  -- rounds that the loop allows itself are enough.
  pub canonical-IsRoot :
      (k : Text)
      → IsRoot s.merges (canonical_identity s k) × (text_leb (canonical_identity s k) k ≡ true)
  unfolding canonical_identity
  canonical-IsRoot k =
      chase-IsRoot (suc (length s.merges)) s.merges k f (omega (arith, below-le k s.merges))

  -- One step down the chain keeps the canonical identity.
  pub canonical_step :
      (k v : Text) → get k s.merges ≡ some v → canonical_identity s k ≡ canonical_identity s v
  unfolding canonical_identity
  canonical_step k v e = elim (Bool-cases (text_eq v k)) [
    | inl q ↦ ap (λ x. chase (suc (length s.merges)) s.merges x) (sym ((text_eq_iff v k).0 q))
    | inr q ↦
        let down = below_lt v k v s.merges e (f k v e) (λ p. ground (arith, p, text_eq_iff v k)) in
        chase-next (length s.merges) s.merges k v e q
        ∙ chase_rounds (length s.merges) (suc (length s.merges)) s.merges v f
            (omega (arith, below-le k s.merges)) (omega (arith, below-le v s.merges))
  ]

  pub canonical_twice :
      (k : Text) → canonical_identity s (canonical_identity s k) ≡ canonical_identity s k
  canonical_twice k = canonical_of_root s (canonical_identity s k) (canonical-IsRoot k).0
