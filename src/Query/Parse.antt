-- ===== src/Query/Parse.antt =====
-- crates/brolga-query/src/parse.rs, `Parser` and `parse`.
-- A parser is its tokens from the index on; the index stays at the last token. What `parse_or` calls
-- for an operand is an argument, the parser of what stands in parentheses with less fuel.
pub mod Tokens
pub mod Printed
pub mod Loops
pub mod Whole
use brolga.Prelude.{
  ℕ, zero, suc, ◌+◌, Bool, true, false, Option, some, none, List, [], ◌∷◌, length, ltb, Text,
  if◌then◌else◌,
}
use brolga.Prelude.Results.{Result, ok, err, ◌>>=◌}
use brolga.Query.{
  Span, span_of, Reason, QueryError, parsing, limit, Limits, Field, parse_field, BinaryOp, Literal,
  Expr, compare, conj, disj, group, depth, trailing_input, expected_close, expected_operator,
  expected_value, empty_query, expected_primary, unknown_field, input_bytes, expression_depth,
}
use brolga.Query.Lex.{TokenKind, Token, Stop, out_of_fuel, refused, is_eof, lex}

abbrev pub current : List Token → Token
current [] = record { kind = TokenKind.eof; span = span_of 0 0 }
current (t ∷ tokens) = t

unfoldable pub bump : List Token → List Token
bump [] = []
bump (t ∷ []) = t ∷ []
bump (t ∷ u ∷ tokens) = u ∷ tokens

unfoldable pub left_span : Expr → Span
left_span (compare field op value span) = span
left_span (conj left right span) = span
left_span (disj left right span) = span
left_span (group inner span) = span

abbrev pub Parsed : Type 0
Parsed = Result Stop (Expr × List Token)

abbrev pub refuse : {A : Type 0} → Reason → Token → Result Stop A
refuse why t = err (refused (parsing why t.span.start t.span.end))

abbrev pub operator : TokenKind → Option BinaryOp
operator TokenKind.equals = some BinaryOp.eq
operator TokenKind.differs = some BinaryOp.ne
operator _ = none

abbrev pub literal : TokenKind → Option Literal
literal (TokenKind.word s) = some (Literal.ident s)
literal (TokenKind.text s) = some (Literal.string s)
literal _ = none

abbrev is_right_paren : TokenKind → Bool
is_right_paren TokenKind.right_paren = true
is_right_paren _ = false

abbrev pub is_and : TokenKind → Bool
is_and TokenKind.and = true
is_and _ = false

abbrev pub is_or : TokenKind → Bool
is_or TokenKind.or = true
is_or _ = false

-- A comparison, from the token of its field on.
unfoldable pub parse_value : Span → Field → BinaryOp → List Token → Parsed
parse_value start field op tokens = elim (literal (current tokens).kind) [
  | some value ↦
      ok (compare field op value (span_of start.start (current tokens).span.end), bump tokens)
  | none ↦ refuse expected_value (current tokens)
]

unfoldable pub parse_operator : Span → Field → List Token → Parsed
parse_operator start field tokens = elim (operator (current tokens).kind) [
  | some op ↦ parse_value start field op (bump tokens)
  | none ↦ refuse expected_operator (current tokens)
]

unfoldable pub parse_comparison : Token → Text → List Token → Parsed
parse_comparison t name tokens = elim (parse_field name) [
  | some field ↦ parse_operator t.span field (bump tokens)
  | none ↦ refuse (unknown_field name) t
]

unfoldable pub close : Span → Expr → List Token → Parsed
close start inner tokens =
    if is_right_paren (current tokens).kind
    then ok (group inner (span_of start.start (current tokens).span.end), bump tokens)
    else refuse expected_close (current tokens)

-- `parse_primary`, by the kind of the current token.
unfoldable pub parse_primary_at : (List Token → Parsed) → Token → TokenKind → List Token → Parsed
parse_primary_at parse_or t TokenKind.left_paren tokens =
    parse_or (bump tokens) >>= λ (inner, rest). close t.span inner rest
parse_primary_at parse_or t (TokenKind.word name) tokens = parse_comparison t name tokens
parse_primary_at parse_or t TokenKind.eof tokens = refuse empty_query t
parse_primary_at parse_or t _ tokens = refuse expected_primary t

unfoldable pub parse_primary : (List Token → Parsed) → List Token → Parsed
parse_primary parse_or tokens =
    parse_primary_at parse_or (current tokens) (current tokens).kind tokens

abbrev pub covering : Expr → Expr → Span
covering left right = span_of (left_span left).start (left_span right).end

unfoldable pub and_loop : ℕ → (List Token → Parsed) → Expr → List Token → Parsed
and_loop zero primary left tokens = err out_of_fuel
and_loop (suc n) primary left tokens =
    if is_and (current tokens).kind
    then (primary (bump tokens) >>= λ (right, rest).
        and_loop n primary (conj left right (covering left right)) rest)
    else ok (left, tokens)

unfoldable pub parse_and : ℕ → (List Token → Parsed) → List Token → Parsed
parse_and n primary tokens = primary tokens >>= λ (left, rest). and_loop n primary left rest

unfoldable pub or_loop : ℕ → (List Token → Parsed) → Expr → List Token → Parsed
or_loop zero operand left tokens = err out_of_fuel
or_loop (suc n) operand left tokens =
    if is_or (current tokens).kind
    then (operand (bump tokens) >>= λ (right, rest).
        or_loop n operand (disj left right (covering left right)) rest)
    else ok (left, tokens)

unfoldable pub parse_or : ℕ → List Token → Parsed
parse_or zero tokens = err out_of_fuel
parse_or (suc n) tokens =
    let operand = parse_and n (parse_primary (parse_or n)) in
    operand tokens >>= λ (left, rest). or_loop n operand left rest

unfoldable pub expect_eof : Expr × List Token → Result Stop Expr
expect_eof (e, tokens) =
    if is_eof (current tokens).kind then ok e else refuse trailing_input (current tokens)

abbrev pub check_depth : Limits → Expr → Result Stop Expr
check_depth l e =
    if ltb l.max_depth (depth e)
    then err (refused (limit (expression_depth (depth e) l.max_depth)))
    else ok e

-- Each call of `parse_or` and each iteration is for fewer tokens.
unfoldable pub parse : List ℕ → Limits → Result Stop Expr
parse input l =
    if ltb l.max_input_bytes (length input)
    then err (refused (limit (input_bytes (length input) l.max_input_bytes)))
    else lex l input >>= λ tokens. parse_or (length tokens) tokens >>= expect_eof >>= check_depth l
