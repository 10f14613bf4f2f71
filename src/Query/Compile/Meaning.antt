-- ===== src/Query/Compile/Meaning.antt =====
-- What the queries that crates/brolga-query/src/compile.rs makes of expressions admit.
use mathlib.Core.List.{Memᴰ}
use mathlib.Core.List.Memᴰ
use brolga.Prelude.{
  ℕ, ◌+◌, ◌≡◌, ◌≢◌, refl, sym, ap, ◌∙◌, inl, inr, ◌⊎◌, ◌↔◌, Option, some, none, List, [], ◌∷◌, Text,
  arith, subst, Memᴰ-cons,
}
use brolga.Prelude.Results.{ok, ◌>>=◌, ok-injective, bind-ok}
use brolga.Model.Vocabulary.{Vocabulary, lookup, lookup_iff, set_insert, set_extend, mem-set_extend}
use brolga.Model.Entity as Entity
use brolga.Model.Entity.{EntityKind, entity_kinds}
use brolga.Model.Status as Status
use brolga.Model.Status.{LifecycleStatus, lifecycle_statuses}
use brolga.Query.{
  Span, Reason, unknown_kind, unknown_status, Field, BinaryOp, Expr, compare, conj, disj, group,
}
use brolga.Query.Compile.{
  EntityQuery, unfiltered, with_kind, with_status, literal_text, merge_and, found_or, compile_field,
  compile_expr,
}

abbrev pub value_of : Field → EntityKind → LifecycleStatus → Text
value_of Field.kind k s = Entity.as_str k
value_of Field.status k s = Status.as_str s

-- An expression of an entity of a kind and a status, read as logic.
abbrev pub Holds : EntityKind → LifecycleStatus → Expr → Type 0
Holds k s (compare f BinaryOp.eq v span) = value_of f k s ≡ literal_text v
Holds k s (compare f BinaryOp.ne v span) = value_of f k s ≢ literal_text v
Holds k s (conj a b span) = Holds k s a × Holds k s b
Holds k s (disj a b span) = Holds k s a ⊎ Holds k s b
Holds k s (group a span) = Holds k s a

-- An empty set does not constrain.
abbrev pub AdmitsIn : {A : Type 0} → List A → A → Type 0
AdmitsIn set x = (set ≡ []) ⊎ Memᴰ x set

abbrev pub Admits : EntityQuery → EntityKind → LifecycleStatus → Type 0
Admits q k s = AdmitsIn q.kinds k × AdmitsIn q.statuses s

module _ {A : Type 0} (v : Vocabulary A) where
  extend-empty : (a b : List A) → set_extend v a b ≡ [] → (a ≡ []) × (b ≡ [])
  unfolding set_extend
  extend-empty a [] h = (h, refl)
  extend-empty a (x ∷ b) h = absurd (
      Memᴰ.not-nil
        (subst (λ s. Memᴰ x s) h ((mem-set_extend v x a (x ∷ b)).1 (inr (Memᴰ.head refl)))))

  pub AdmitsIn-both :
      (x : A) (a b : List A) → AdmitsIn a x → AdmitsIn b x → AdmitsIn (set_extend v a b) x
  unfolding set_extend
  AdmitsIn-both x a b (inr i) q = inr ((mem-set_extend v x a b).1 (inl i))
  AdmitsIn-both x a b (inl e) (inr i) = inr ((mem-set_extend v x a b).1 (inr i))
  AdmitsIn-both x a b (inl e) (inl f) = inl (rw (e, f) refl)

  -- Of sets that are not both constraints.
  pub AdmitsIn-each :
      (x : A) (a b : List A)
      → (a ≡ []) ⊎ (b ≡ [])
      → AdmitsIn (set_extend v a b) x
      → AdmitsIn a x × AdmitsIn b x
  AdmitsIn-each x a b one (inl e) = let (p, q) = extend-empty a b e in (inl p, inl q)
  AdmitsIn-each x a b (inl p) (inr i) = (
    inl p,
    elim ((mem-set_extend v x a b).0 i) [
      | inl j ↦ absurd (Memᴰ.not-nil (subst (λ s. Memᴰ x s) p j))
      | inr j ↦ inr j
    ],
  )
  AdmitsIn-each x a b (inr p) (inr i) = (
    elim ((mem-set_extend v x a b).0 i) [
      | inl j ↦ inr j
      | inr j ↦ absurd (Memᴰ.not-nil (subst (λ s. Memᴰ x s) p j))
    ],
    inl p,
  )

  -- A constraint to the one variant of a name.
  AdmitsIn-one :
      (x a : A) (name : Text)
      → lookup v name ≡ some a
      → AdmitsIn (set_insert v a []) x ↔ (v.as_str x ≡ name)
  unfolding set_insert
  AdmitsIn-one x a name h = (there, back)
    where
      there : AdmitsIn (set_insert v a []) x → v.as_str x ≡ name
      there (inl e) = absurd (ground arith)
      there (inr i) = elim ((Memᴰ-cons x a []).0 i) [
        | inl e ↦ ap v.as_str e ∙ (lookup_iff v name a).0 h
        | inr j ↦ elim j [ ]
      ]

      back : v.as_str x ≡ name → AdmitsIn (set_insert v a []) x
      back e =
          let same : some x ≡ some a = sym ((lookup_iff v name x).1 e) ∙ h in
          inr (Memᴰ.head (ground (arith, same)))

found-ok :
    {A : Type 0} (o : Option A) (why : Reason) (f : A → EntityQuery) (q : EntityQuery)
    → found_or o why f ≡ ok q
    → (a : A) × (o ≡ some a) × (f a ≡ q)
found-ok none why f q h = cc
found-ok (some a) why f q h = (a, refl, ok-injective h)

pub compile_field-Admits :
    (f : Field) (name : Text) (q : EntityQuery) (k : EntityKind) (s : LifecycleStatus)
    → compile_field f name ≡ ok q
    → Admits q k s ↔ (value_of f k s ≡ name)
unfolding compile_field with_kind with_status
compile_field-Admits Field.kind name q k s h =
    let (a, p, e) =
      found-ok (lookup entity_kinds name) (unknown_kind name) (λ k. with_kind k unfiltered) q h in
    let one = AdmitsIn-one entity_kinds k a name p in
    subst (λ q. Admits q k s ↔ (Entity.as_str k ≡ name)) e
      (λ x. one.0 x.0, λ x. (one.1 x, inl refl))
compile_field-Admits Field.status name q k s h =
    let (a, p, e) =
      found-ok (lookup lifecycle_statuses name) (unknown_status name)
        (λ s. with_status s unfiltered) q h in
    let one = AdmitsIn-one lifecycle_statuses s a name p in
    subst (λ q. Admits q k s ↔ (Status.as_str s ≡ name)) e
      (λ x. one.0 x.1, λ x. (inl refl, one.1 x))

-- How many comparisons of a field an expression has.
abbrev pub count : Field → Expr → ℕ
count Field.kind (compare Field.kind op v span) = 1
count Field.kind (compare Field.status op v span) = 0
count Field.status (compare Field.kind op v span) = 0
count Field.status (compare Field.status op v span) = 1
count f (conj a b span) = count f a + count f b
count f (disj a b span) = count f a + count f b
count f (group a span) = count f a

pub conj-ok :
    (a b : Expr) (span : Span) (q : EntityQuery)
    → compile_expr (conj a b span) ≡ ok q
    → (x : EntityQuery) × (compile_expr a ≡ ok x)
      × ((y : EntityQuery) × (compile_expr b ≡ ok y) × (merge_and x y ≡ q))
unfolding compile_expr
conj-ok a b span q h =
    let (x, p, h1) =
      bind-ok (compile_expr a) (λ x. compile_expr b >>= λ y. ok (merge_and x y)) q h in
    let (y, p', h2) = bind-ok (compile_expr b) (λ y. ok (merge_and x y)) q h1 in
    (x, p, (y, p', ok-injective h2))

-- A field that is not compared is not constrained.
pub kinds-free :
    (e : Expr) (q : EntityQuery) → compile_expr e ≡ ok q → count Field.kind e ≡ 0 → q.kinds ≡ []
unfolding compile_expr compile_field with_status merge_and set_extend
kinds-free (compare Field.kind op v span) q h c = absurd (omega arith)
kinds-free (compare Field.status BinaryOp.eq v span) q h c =
    let (a, p, e) =
      found-ok (lookup lifecycle_statuses (literal_text v)) (unknown_status (literal_text v))
        (λ s. with_status s unfiltered) q h in
    ap (λ x. x.kinds) (sym e)
kinds-free (compare Field.status BinaryOp.ne v span) q h c = cc
kinds-free (conj a b span) q h c =
    let (x, p, (y, p', e)) = conj-ok a b span q h in
    let f = kinds-free a x p (omega arith) in
    let g = kinds-free b y p' (omega arith) in
    ap (λ x. x.kinds) (sym e) ∙ (rw (merge_and, f, g) refl)
kinds-free (disj a b span) q h c = cc
kinds-free (group a span) q h c = kinds-free a q h c

pub statuses-free :
    (e : Expr) (q : EntityQuery)
    → compile_expr e ≡ ok q
    → count Field.status e ≡ 0
    → q.statuses ≡ []
unfolding compile_expr compile_field with_kind merge_and set_extend
statuses-free (compare Field.status op v span) q h c = absurd (omega arith)
statuses-free (compare Field.kind BinaryOp.eq v span) q h c =
    let (a, p, e) =
      found-ok (lookup entity_kinds (literal_text v)) (unknown_kind (literal_text v))
        (λ k. with_kind k unfiltered) q h in
    ap (λ x. x.statuses) (sym e)
statuses-free (compare Field.kind BinaryOp.ne v span) q h c = cc
statuses-free (conj a b span) q h c =
    let (x, p, (y, p', e)) = conj-ok a b span q h in
    let f = statuses-free a x p (omega arith) in
    let g = statuses-free b y p' (omega arith) in
    ap (λ x. x.statuses) (sym e) ∙ (rw (merge_and, f, g) refl)
statuses-free (disj a b span) q h c = cc
statuses-free (group a span) q h c = statuses-free a q h c

-- The query of an expression admits every entity that the expression holds of.
pub compile_expr-Admits :
    (e : Expr) (q : EntityQuery) (k : EntityKind) (s : LifecycleStatus)
    → compile_expr e ≡ ok q
    → Holds k s e
    → Admits q k s
unfolding compile_expr merge_and
compile_expr-Admits (compare f BinaryOp.eq v span) q k s h t =
    (compile_field-Admits f (literal_text v) q k s h).1 t
compile_expr-Admits (compare f BinaryOp.ne v span) q k s h t = absurd (ground arith)
compile_expr-Admits (conj a b span) q k s h (t, u) =
    let (x, p, (y, p', e)) = conj-ok a b span q h in
    let (xk, xs) = compile_expr-Admits a x k s p t in
    let (yk, ys) = compile_expr-Admits b y k s p' u in
    subst (λ q. Admits q k s) e
      (
        AdmitsIn-both entity_kinds k x.kinds y.kinds xk yk,
        AdmitsIn-both lifecycle_statuses s x.statuses y.statuses xs ys,
      )
compile_expr-Admits (disj a b span) q k s h t = absurd (ground arith)
compile_expr-Admits (group a span) q k s h t = compile_expr-Admits a q k s h t
