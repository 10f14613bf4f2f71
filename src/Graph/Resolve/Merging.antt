-- ===== src/Graph/Resolve/Merging.antt =====
-- What the merges that `ResolutionState::apply` of crates/brolga-graph/src/resolve.rs records come to.
use brolga.Prelude.{
  ℕ, ◌≡◌, ◌≢◌, refl, sym, ap, ◌∙◌, inl, inr, Text, text_eq, text_eq_iff, text_leb, text_leb_total,
  Bool, true, false, some, List, [], ◌∷◌, ◌++◌, arith, Bool-cases, subst,
}
use brolga.Prelude.TextMap.{TextMap, get, insert, remove, get-insert, get-remove}
use brolga.Graph.Resolve.{
  OperationKind, merge, split, reject, alias, pin, ManualOperation, Result-cases, ok-injective, ok,
  ResolutionState, new, ordered, merged, perform, apply, replay_from, replay, canonical_identity,
  unwrap_or_default,
}
use brolga.Graph.Resolve.Chain.{
  Falls, IsRoot, canonical_of_root, canonical_step, canonical-IsRoot, canonical_twice,
}

some_eq {ℓ} : {A : Type ℓ} {a b : A} → some a ≡ some b → a ≡ b
some_eq h = cc

ordered-le : (a b : Text) → text_leb (ordered a b).0 (ordered a b).1 ≡ true
unfolding ordered
ordered-le a b = elim (Bool-cases (text_leb a b)) [
  | inl h ↦ rw h h
  | inr h ↦ rw h (text_leb_total a b h)
]

insert-Falls :
    (m : TextMap Text) (k v : Text) → text_leb v k ≡ true → Falls m → Falls (insert k v m)
insert-Falls m k v h f j w e = elim (Bool-cases (text_eq j k)) [
  | inl q ↦
      let p : j ≡ k = (text_eq_iff j k).0 q in
      let r : v ≡ w = some_eq (sym (get-insert j k v m ∙ rw q refl) ∙ e) in rw (p, ← r) h
  | inr q ↦ f j w (sym (get-insert j k v m ∙ rw q refl) ∙ e)
]

remove-Falls : (m : TextMap Text) (k : Text) → Falls m → Falls (remove k m)
remove-Falls m k f j w e = elim (Bool-cases (text_eq j k)) [
  | inl q ↦ ground (arith, get-remove j k m)
  | inr q ↦ f j w (sym (get-remove j k m ∙ rw q refl) ∙ e)
]

-- What a merge that was not refused has done.
pub merged-merges :
    (s : ResolutionState) (a b : Text) {t : ResolutionState}
    → merged s a b ≡ ok t
    → t.merges ≡ insert (ordered a b).1 (ordered a b).0 s.merges
unfolding merged
merged-merges s a b h = ground arith

perform-Falls :
    (s : ResolutionState) (o : ManualOperation) (k : OperationKind) {t : ResolutionState}
    → perform s o k ≡ ok t
    → Falls s.merges
    → Falls t.merges
unfolding perform
perform-Falls s o merge h f =
    let b = unwrap_or_default o.right in
    subst Falls (sym (merged-merges s o.left b h))
      (insert-Falls s.merges (ordered o.left b).1 (ordered o.left b).0 (ordered-le o.left b) f)
perform-Falls s o split h f =
    let b = unwrap_or_default o.right in
    subst Falls {x = remove (ordered o.left b).1 s.merges} (ground arith)
      (remove-Falls s.merges (ordered o.left b).1 f)
perform-Falls s o reject h f = subst Falls {x = s.merges} (ground arith) f
perform-Falls s o alias h f = subst Falls {x = s.merges} (ground arith) f
perform-Falls s o pin h f = subst Falls {x = s.merges} (ground arith) f

module _ (is_whitespace : ℕ → Bool) where
  -- An operation that was applied was performed, and recorded.
  pub apply-ok :
      (s : ResolutionState) (o : ManualOperation) {t : ResolutionState}
      → apply is_whitespace s o ≡ ok t
      → (u : ResolutionState) × (perform s o o.kind ≡ ok u)
        × (t ≡ record u { history = u.history ++ o ∷ [] })
  unfolding apply
  apply-ok s o h = elim (Result-cases (perform s o o.kind)) [
    | inl (u, e) ↦ (u, e, ground arith)
    | inr (x, e) ↦ absurd (ground arith)
  ]

  apply-Falls :
      (s : ResolutionState) (o : ManualOperation) {t : ResolutionState}
      → apply is_whitespace s o ≡ ok t
      → Falls s.merges
      → Falls t.merges
  apply-Falls s o h f =
      let (u, e, r) = apply-ok s o h in
      subst Falls (ap (λ x. x.merges) (sym r)) (perform-Falls s o o.kind e f)

  -- An invariant of the operations is one of what a sequence of them reaches.
  pub replay_from-keeps {ℓ} :
      (P : ResolutionState → Type ℓ)
      → ((s : ResolutionState) (o : ManualOperation) (t : ResolutionState)
          → apply is_whitespace s o ≡ ok t
          → P s
          → P t)
      → (s : ResolutionState) (os : List ManualOperation) {t : ResolutionState}
      → replay_from is_whitespace s os ≡ ok t
      → P s
      → P t
  unfolding replay_from
  replay_from-keeps P keeps s [] h p = subst P (ok-injective h) p
  replay_from-keeps P keeps s (o ∷ os) h p = elim (Result-cases (apply is_whitespace s o)) [
    | inl (u, e) ↦ replay_from-keeps P keeps u os (rw (replay_from, e) at h) (keeps s o u e p)
    | inr (x, e) ↦ absurd (ground arith)
  ]

  replay-Falls :
      (os : List ManualOperation) {t : ResolutionState}
      → replay is_whitespace os ≡ ok t
      → Falls t.merges
  unfolding replay new get
  replay-Falls os h =
      replay_from-keeps (λ s. Falls s.merges) (λ s o t. apply-Falls s o {t = t}) new os h
        (λ k v e. absurd (ground arith))

  -- In every state that a sequence of operations reaches, the canonical identity of any identity is
  -- merged into no other, is no later in the order of texts, and is its own canonical identity: the
  -- loop's bound is never what stops it.
  pub replay-IsRoot :
      (os : List ManualOperation) (s : ResolutionState) (k : Text)
      → replay is_whitespace os ≡ ok s
      → IsRoot s.merges (canonical_identity s k)
        × (text_leb (canonical_identity s k) k ≡ true)
        × (canonical_identity s (canonical_identity s k) ≡ canonical_identity s k)
  replay-IsRoot os s k h =
      let f = replay-Falls os h in
      let (root, le) = canonical-IsRoot s f k in (root, le, canonical_twice s f k)

  -- What a merge that was applied has done to the merges.
  apply-merges :
      (s : ResolutionState) (o : ManualOperation) (a b : Text) {t : ResolutionState}
      → apply is_whitespace s o ≡ ok t
      → o.kind ≡ merge
      → ordered o.left (unwrap_or_default o.right) ≡ (a, b)
      → t.merges ≡ insert b a s.merges
  unfolding perform
  apply-merges s o a b {t = t} h k p =
      let (u, e, r) = apply-ok s o h in
      let m =
        merged-merges s o.left (unwrap_or_default o.right) {t = u}
          (subst (λ x. perform s o x ≡ ok u) k e) in
      ap (λ x. x.merges) r ∙ m ∙ ap (λ x. insert x.1 x.0 s.merges) p

  merged-canonical :
      (s : ResolutionState) (o : ManualOperation) (a b : Text) {t : ResolutionState}
      → Falls s.merges
      → apply is_whitespace s o ≡ ok t
      → o.kind ≡ merge
      → ordered o.left (unwrap_or_default o.right) ≡ (a, b)
      → canonical_identity t b ≡ canonical_identity t a
  merged-canonical s o a b {t = t} f h e p = canonical_step t (apply-Falls s o h f) b a (
      ap (λ m. get b m) (apply-merges s o a b h e p)
      ∙ get-insert b b a s.merges
      ∙ rw ((text_eq_iff b b).1 refl) refl)

  -- After a merge that is applied in a state that operations reach, the two identities have the same
  -- canonical identity.
  merge_unifies :
      (os : List ManualOperation) (s t : ResolutionState) (o : ManualOperation) (k : Text)
      → replay is_whitespace os ≡ ok s
      → apply is_whitespace s o ≡ ok t
      → o.kind ≡ merge
      → o.right ≡ some k
      → canonical_identity t o.left ≡ canonical_identity t k
  unfolding ordered
  merge_unifies os s t o k h a e r =
      let w : unwrap_or_default o.right ≡ k = ap unwrap_or_default r in
      elim (Bool-cases (text_leb o.left k)) [
        | inl q ↦ sym (merged-canonical s o o.left k (replay-Falls os h) a e (rw (w, q) refl))
        | inr q ↦ merged-canonical s o k o.left (replay-Falls os h) a e (rw (w, q) refl)
      ]

  -- A merge leaves alone a root that it does not absorb.
  merge-IsRoot :
      (s : ResolutionState) (o : ManualOperation) (a b k : Text) {t : ResolutionState}
      → apply is_whitespace s o ≡ ok t
      → o.kind ≡ merge
      → ordered o.left (unwrap_or_default o.right) ≡ (a, b)
      → k ≢ b
      → IsRoot s.merges k
      → IsRoot t.merges k
  merge-IsRoot s o a b k {t = t} h e p n r =
      let q : text_eq k b ≡ false = ground (arith, text_eq_iff k b) in
      let g : get k t.merges ≡ get k s.merges =
        ap (λ m. get k m) (apply-merges s o a b h e p) ∙ get-insert k b a s.merges ∙ rw q refl in
      rw g r

  -- When `a` and `b` are two identities that are merged into none, both earlier than `c`, and `c` is merged with
  -- `a` and then with `b`, the second merge replaces the first: `a` and `c` have different canonical
  -- identities again, though no operation split them.
  pub remerge_forgets :
      (s t u : ResolutionState) (o p : ManualOperation) (a b c : Text)
      → Falls s.merges
      → IsRoot s.merges a
      → IsRoot s.merges b
      → a ≢ b
      → a ≢ c
      → b ≢ c
      → apply is_whitespace s o ≡ ok t
      → o.kind ≡ merge
      → ordered o.left (unwrap_or_default o.right) ≡ (a, c)
      → apply is_whitespace t p ≡ ok u
      → p.kind ≡ merge
      → ordered p.left (unwrap_or_default p.right) ≡ (b, c)
      → (canonical_identity t c ≡ canonical_identity t a)
        × (canonical_identity u a ≢ canonical_identity u c)
  remerge_forgets s t u o p a b c f ra rb nab nac nbc ho ko eo hp kp ep =
      let ft = apply-Falls s o ho f in
      let keep : (k : Text) → k ≢ c → IsRoot s.merges k → canonical_identity u k ≡ k = λ k n r.
        canonical_of_root u k
          (merge-IsRoot t p b c k hp kp ep n (merge-IsRoot s o a c k ho ko eo n r)) in
      let uc = merged-canonical t p b c ft hp kp ep ∙ keep b nbc rb in
      (merged-canonical s o a c f ho ko eo, λ x. nab (sym (keep a nac ra) ∙ x ∙ uc))
