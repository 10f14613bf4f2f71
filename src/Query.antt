-- ===== src/Query.antt =====
-- crates/brolga-query/src/syntax.rs, limits.rs and error.rs: expressions, limits and errors.
-- A reason is a constructor with what the message quotes.
pub mod Lex
pub mod Parse
pub mod Compile
use Prim.Native.Nat.{max}
use brolga.Prelude.{ℕ, ◌+◌, Option, some, none, Text, codes, text_eq, if◌then◌else◌}

pub record Span : Type 0 where
  pub start : ℕ
  pub end : ℕ

abbrev pub span_of : ℕ → ℕ → Span
span_of start end = record { start = start; end = end }

pub data Reason : Type 0 where
  unterminated_escape unterminated_string trailing_input expected_close : Reason
  expected_operator expected_value empty_query expected_primary : Reason
  not_allowed unexpected_character : ℕ → Reason
  unknown_field unknown_kind unknown_status : Text → Reason
  input_bytes expression_depth : ℕ → ℕ → Reason
  more_than_tokens : ℕ → Reason
  only_equality or_unsupported : Reason

pub data QueryError : Type 0 where
  lexing parsing : Reason → ℕ → ℕ → QueryError
  limit compiling : Reason → QueryError

-- `QueryError::span`
unfoldable pub span : QueryError → Option Span
span (lexing reason start end) = some (span_of start end)
span (parsing reason start end) = some (span_of start end)
span (limit reason) = none
span (compiling reason) = none

pub record Limits : Type 0 where
  pub max_tokens : ℕ
  pub max_depth : ℕ
  pub max_result_limit : ℕ
  pub max_input_bytes : ℕ

-- `Limits::default`
abbrev pub default_limits : Limits
default_limits = record {
  max_tokens = 256;
  max_depth = 8;
  max_result_limit = 1000;
  max_input_bytes = 4096;
}

-- `Limits::tight`
abbrev pub tight : Limits
tight = record { max_tokens = 32; max_depth = 3; max_result_limit = 50; max_input_bytes = 256 }

pub data Field : Type 0 where
  kind status : Field

abbrev pub field_str : Field → Text
field_str kind = codes "kind"
field_str status = codes "status"

-- `Field::parse`
unfoldable pub parse_field : Text → Option Field
unfolding text_eq
parse_field name =
    if text_eq name (codes "kind")
    then some kind
    else if text_eq name (codes "status")
    then some status
    else none

pub data BinaryOp : Type 0 where
  eq ne : BinaryOp

pub data Literal : Type 0 where
  ident string : Text → Literal

pub data Expr : Type 0 where
  compare : Field → BinaryOp → Literal → Span → Expr
  conj disj : Expr → Expr → Span → Expr
  group : Expr → Span → Expr

unfoldable pub depth : Expr → ℕ
depth (compare field op value span) = 1
depth (conj left right span) = 1 + max (depth left) (depth right)
depth (disj left right span) = 1 + max (depth left) (depth right)
depth (group inner span) = 1 + depth inner
