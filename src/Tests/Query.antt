-- ===== src/Tests/Query.antt =====
-- Runs of crates/brolga-query.
use brolga.Prelude.{
  ◌≤◌, ◌≡◌, refl, ◌↔◌, false, List, [], ◌∷◌, Text, codes, text_eq, length, arith, some,
}
use brolga.Prelude.Results.{ok, err}
use brolga.Model.Vocabulary.{lookup, set_insert, set_extend}
use brolga.Model.Entity as Entity
use brolga.Model.Entity.{EntityKind}
use brolga.Model.Status as Status
use brolga.Model.Status.{LifecycleStatus}
use brolga.Query.{
  span_of, default_limits, tight, Field, BinaryOp, Literal, Expr, compare, conj, depth, parse_field,
  lexing, not_allowed,
}
use brolga.Query.Lex.{
  Token, TokenKind, refused, scan_string, scan_word, keyword, lex_one, lex_loop, lex,
}
use brolga.Query.Lex.Indexed.{WithinStop}
use brolga.Query.Parse.{
  bump, left_span, parse_value, parse_operator, parse_comparison, parse_primary_at, parse_primary,
  and_loop, parse_and, or_loop, parse_or, expect_eof, parse,
}
use brolga.Query.Parse.Whole.{Read, parse-WithinStop, parse-print}
use brolga.Query.Compile.{
  EntityQuery, unfiltered, with_kind, with_status, merge_and, compile_field, compile_expr,
}
use brolga.Query.Compile.Meaning.{Holds, Admits}
use brolga.Query.Compile.Exact.{compile_expr_iff, two_kinds, two_kinds-compile_expr}

abbrev input : Text
input = codes "kind=tool and status=active"

abbrev tool : Expr
tool = compare Field.kind BinaryOp.eq (Literal.ident (codes "tool")) (span_of 0 9)

abbrev active : Expr
active = compare Field.status BinaryOp.eq (Literal.ident (codes "active")) (span_of 14 27)

abbrev tool_and_active : Expr
tool_and_active = conj tool active (span_of 0 27)

parse_input : parse input default_limits ≡ ok tool_and_active
unfolding parse lex lex_loop lex_one scan_word keyword text_eq parse_or or_loop parse_and and_loop
    parse_primary parse_primary_at parse_comparison parse_operator parse_value parse_field bump
    left_span expect_eof depth
parse_input = refl

parse-print_example :
    (tokens : List Token) × (lex default_limits input ≡ ok tokens)
    × Read default_limits tokens tool_and_active
    × (length input ≤ 4096)
parse-print_example = parse-print input default_limits tool_and_active parse_input

abbrev comment : Text
comment = codes "kind = x; drop"

comment-refused : parse comment tight ≡ err (refused (lexing (not_allowed b';') 8 9))
unfolding parse lex lex_loop lex_one scan_word keyword text_eq
comment-refused = refl

parse-WithinStop_example : WithinStop 14 (refused (lexing (not_allowed b';') 8 9))
parse-WithinStop_example =
    parse-WithinStop comment tight (refused (lexing (not_allowed b';') 8 9)) comment-refused

abbrev active_tools : EntityQuery
active_tools = record unfiltered { kinds = Entity.tool ∷ []; statuses = Status.active ∷ [] }

compile_active_tools : compile_expr tool_and_active ≡ ok active_tools
unfolding compile_expr compile_field with_kind with_status merge_and lookup set_insert set_extend
    text_eq
compile_active_tools = refl

compile_expr_iff_example :
    Admits active_tools Entity.campaign Status.active
    ↔ Holds Entity.campaign Status.active tool_and_active
compile_expr_iff_example =
    compile_expr_iff tool_and_active active_tools Entity.campaign Status.active compile_active_tools
      (omega arith) (omega arith)

two_kinds-compile_expr_example :
    (q : EntityQuery) × (compile_expr (two_kinds Entity.tool Entity.campaign (span_of 0 9)) ≡ ok q)
    × ((s : LifecycleStatus) → Admits q Entity.tool s × Admits q Entity.campaign s)
    × ((k : EntityKind) (s : LifecycleStatus)
        → ¬ Holds k s (two_kinds Entity.tool Entity.campaign (span_of 0 9)))
two_kinds-compile_expr_example =
    two_kinds-compile_expr Entity.tool Entity.campaign (span_of 0 9) (λ e. cc)

-- The two bytes of a letter outside ASCII become two characters.
quoted_bytes :
    scan_string false 0 1 [] (195 ∷ 169 ∷ b'"' ∷ [])
    ≡ ok (some (record { kind = TokenKind.text (195 ∷ 169 ∷ []); span = span_of 0 4 }), 4, [])
unfolding scan_string
quoted_bytes = refl
