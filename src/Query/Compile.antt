-- ===== src/Query/Compile.antt =====
-- crates/brolga-query/src/compile.rs, and `EntityQuery` of crates/brolga-storage/src/store.rs.
-- A `Timestamp` is a number here: it is only passed on.
pub mod Meaning
pub mod Exact
use brolga.Prelude.{
  ℕ, Bool, true, false, ◌&&◌, Option, some, none, List, [], ◌∷◌, Text, if◌then◌else◌,
}
use brolga.Prelude.Results.{Result, ok, err, ◌>>=◌}
use brolga.Model.Vocabulary.{lookup, set_insert, set_extend}
use brolga.Model.Entity.{EntityKind, entity_kinds}
use brolga.Model.Status.{LifecycleStatus, lifecycle_statuses, active, deprecated}
use brolga.Query.{
  Limits, QueryError, compiling, Reason, unknown_kind, unknown_status, only_equality,
  or_unsupported, Field, BinaryOp, Literal, Expr, compare, conj, disj, group,
}
use brolga.Query.Lex.{Stop, refused}
use brolga.Query.Parse.{parse}

pub record EntityQuery : Type 0 where
  pub kinds : List EntityKind
  pub statuses : List LifecycleStatus
  pub last_seen_from : Option ℕ
  pub last_seen_before : Option ℕ

abbrev pub unfiltered : EntityQuery
unfiltered = record { kinds = []; statuses = []; last_seen_from = none; last_seen_before = none }

unfoldable pub with_kind : EntityKind → EntityQuery → EntityQuery
with_kind k q = record q { kinds = set_insert entity_kinds k q.kinds }

unfoldable pub with_status : LifecycleStatus → EntityQuery → EntityQuery
with_status s q = record q { statuses = set_insert lifecycle_statuses s q.statuses }

unfoldable pub only_current : EntityQuery → EntityQuery
unfolding with_status
only_current q = with_status deprecated (with_status active q)

abbrev pub literal_text : Literal → Text
literal_text (Literal.ident s) = s
literal_text (Literal.string s) = s

abbrev or_else : {A : Type 0} → Option A → Option A → Option A
or_else none b = b
or_else (some a) b = some a

unfoldable pub merge_and : EntityQuery → EntityQuery → EntityQuery
merge_and a b = record {
  kinds = set_extend entity_kinds a.kinds b.kinds;
  statuses = set_extend lifecycle_statuses a.statuses b.statuses;
  last_seen_from = or_else a.last_seen_from b.last_seen_from;
  last_seen_before = or_else a.last_seen_before b.last_seen_before;
}

abbrev pub found_or {ℓ} :
    {A : Type ℓ} → Option A → Reason → (A → EntityQuery) → Result QueryError EntityQuery
found_or none why f = err (compiling why)
found_or (some a) why f = ok (f a)

-- A comparison by `=`.
unfoldable pub compile_field : Field → Text → Result QueryError EntityQuery
compile_field Field.kind text =
    found_or (lookup entity_kinds text) (unknown_kind text) (λ k. with_kind k unfiltered)
compile_field Field.status text =
    found_or (lookup lifecycle_statuses text) (unknown_status text) (λ s. with_status s unfiltered)

unfoldable pub compile_expr : Expr → Result QueryError EntityQuery
compile_expr (group inner span) = compile_expr inner
compile_expr (compare field BinaryOp.ne value span) = err (compiling only_equality)
compile_expr (compare field BinaryOp.eq value span) = compile_field field (literal_text value)
compile_expr (conj left right span) =
    compile_expr left >>= λ a. compile_expr right >>= λ b. ok (merge_and a b)
compile_expr (disj left right span) = err (compiling or_unsupported)

abbrev pub from_compile : Result QueryError EntityQuery → Result Stop EntityQuery
from_compile (ok q) = ok q
from_compile (err x) = err (refused x)

unfoldable pub compile_entity_query : List ℕ → Limits → Result Stop EntityQuery
compile_entity_query input l = parse input l >>= λ e. from_compile (compile_expr e)
