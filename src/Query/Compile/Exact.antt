-- ===== src/Query/Compile/Exact.antt =====
-- When a query of crates/brolga-query/src/compile.rs admits no more than its expression says.
use mathlib.Core.List.{Memᴰ}
use brolga.Prelude.{
  ℕ, ◌+◌, ◌≤◌, ◌≡◌, ◌≢◌, refl, sym, ◌∙◌, inl, inr, ◌⊎◌, ◌↔◌, some, [], ◌∷◌, arith, subst, Memᴰ-cons,
}
use brolga.Prelude.Results.{ok}
use brolga.Model.Vocabulary.{lookup, lookup_iff, set_insert, set_extend, mem-set_extend}
use brolga.Model.Entity as Entity
use brolga.Model.Entity.{EntityKind, entity_kinds}
use brolga.Model.Status.{LifecycleStatus, lifecycle_statuses}
use brolga.Query.{Span, Field, BinaryOp, Literal, Expr, compare, conj, disj, group}
use brolga.Query.Compile.{
  EntityQuery, unfiltered, with_kind, literal_text, merge_and, compile_field, compile_expr,
}
use brolga.Query.Compile.Meaning.{
  Holds, Admits, AdmitsIn-each, compile_field-Admits, count, conj-ok, kinds-free, statuses-free,
  compile_expr-Admits,
}

-- Of two numbers that sum to at most one, one is zero.
one_is_zero : (m n : ℕ) → m + n ≤ 1 → (m ≡ 0) ⊎ (n ≡ 0)
one_is_zero m n h = ground arith

only :
    (e : Expr) (q : EntityQuery) (k : EntityKind) (s : LifecycleStatus)
    → compile_expr e ≡ ok q
    → count Field.kind e ≤ 1
    → count Field.status e ≤ 1
    → Admits q k s
    → Holds k s e
unfolding compile_expr merge_and
only (compare f BinaryOp.eq v span) q k s h m n t =
    (compile_field-Admits f (literal_text v) q k s h).0 t
only (compare f BinaryOp.ne v span) q k s h m n t = absurd (ground arith)
only (conj a b span) q k s h m n t =
    let (x, p, (y, p', e)) = conj-ok a b span q h in
    let (tk, ts) = subst (λ q. Admits q k s) (sym e) t in
    let free : (x.kinds ≡ []) ⊎ (y.kinds ≡ []) =
      elim (one_is_zero (count Field.kind a) (count Field.kind b) m) [
        | inl z ↦ inl (kinds-free a x p z)
        | inr z ↦ inr (kinds-free b y p' z)
      ] in
    let free' : (x.statuses ≡ []) ⊎ (y.statuses ≡ []) =
      elim (one_is_zero (count Field.status a) (count Field.status b) n) [
        | inl z ↦ inl (statuses-free a x p z)
        | inr z ↦ inr (statuses-free b y p' z)
      ] in
    let (xk, yk) = AdmitsIn-each entity_kinds k x.kinds y.kinds free tk in
    let (xs, ys) = AdmitsIn-each lifecycle_statuses s x.statuses y.statuses free' ts in
    (
      only a x k s p (omega arith) (omega arith) (xk, xs),
      only b y k s p' (omega arith) (omega arith) (yk, ys),
    )
only (disj a b span) q k s h m n t = absurd (ground arith)
only (group a span) q k s h m n t = only a q k s h m n t

-- The query of an expression that compares each field at most once admits exactly the entities that
-- the expression holds of.
pub compile_expr_iff :
    (e : Expr) (q : EntityQuery) (k : EntityKind) (s : LifecycleStatus)
    → compile_expr e ≡ ok q
    → count Field.kind e ≤ 1
    → count Field.status e ≤ 1
    → Admits q k s ↔ Holds k s e
compile_expr_iff e q k s h m n = (only e q k s h m n, compile_expr-Admits e q k s h)

abbrev pub two_kinds : EntityKind → EntityKind → Span → Expr
two_kinds a b span =
    conj (compare Field.kind BinaryOp.eq (Literal.ident (Entity.as_str a)) span)
      (compare Field.kind BinaryOp.eq (Literal.ident (Entity.as_str b)) span) span

-- A conjunction of comparisons of the kind with two kinds that differ holds of nothing, and is
-- compiled to a query that admits both of them.
pub two_kinds-compile_expr :
    (a b : EntityKind) (span : Span)
    → a ≢ b
    → (q : EntityQuery) × (compile_expr (two_kinds a b span) ≡ ok q)
      × ((s : LifecycleStatus) → Admits q a s × Admits q b s)
      × ((k : EntityKind) (s : LifecycleStatus) → ¬ Holds k s (two_kinds a b span))
unfolding compile_expr compile_field with_kind merge_and set_insert set_extend
two_kinds-compile_expr a b span differ =
    let p : lookup entity_kinds (Entity.as_str a) ≡ some a =
      (lookup_iff entity_kinds (Entity.as_str a) a).1 refl in
    let p' : lookup entity_kinds (Entity.as_str b) ≡ some b =
      (lookup_iff entity_kinds (Entity.as_str b) b).1 refl in
    let mem : (x : EntityKind)
        → ((x ≡ a) ⊎ (x ≡ b))
        → Memᴰ x (set_extend entity_kinds (a ∷ []) (b ∷ [])) =
      λ x o.
        (mem-set_extend entity_kinds x (a ∷ []) (b ∷ [])).1
          (ground (arith, o, Memᴰ-cons x a [], Memᴰ-cons x b [])) in
    (
      merge_and (with_kind a unfiltered) (with_kind b unfiltered),
      rw (compile_expr, compile_field, p, p') refl,
      λ s. ((inr (mem a (inl refl)), inl refl), (inr (mem b (inr refl)), inl refl)),
      λ k s (x, y).
          let same : some a ≡ some b =
            sym ((lookup_iff entity_kinds (Entity.as_str b) a).1 (sym x ∙ y)) ∙ p' in
          differ (ground (arith, same)),
    )
