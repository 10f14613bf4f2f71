-- ===== src/Query/Parse/Whole.antt =====
-- `lex` and `parse` of crates/brolga-query/src/parse.rs as a whole.
use brolga.Prelude.{
  ℕ, ◌≤◌, ◌≡◌, refl, ap, ◌∙◌, inl, inr, true, List, [], ◌∷◌, ◌++◌, length, ltb, arith, Bool-cases,
  subst,
}
use brolga.Prelude.Results.{Result, ok, err, ◌>>=◌, Result-cases, err-injective}
use brolga.Query.{span_of, Limits, Expr, depth}
use brolga.Query.Lex.{TokenKind, Token, Stop, out_of_fuel, refused, is_eof, lex, lex_loop, ended_at}
use brolga.Query.Lex.Indexed.{Within, WithinStop, Spans, Lexes, lex_loop-Lexes}
use brolga.Query.Parse.{current, Parsed, parse_or, expect_eof, check_depth, parse}
use brolga.Query.Parse.Printed.{Ended, Gives, current-Within}
use brolga.Query.Parse.Tokens.{print, disjunction, shaped, kinds}
use brolga.Query.Parse.Loops.{parse_or-Good}

Ended-append :
    (size : ℕ) (tokens : List Token) (t : Token)
    → Spans size tokens
    → Within size t.span
    → t.kind ≡ TokenKind.eof
    → Ended size (tokens ++ t ∷ [])
Ended-append size [] t s w e = (w, e)
Ended-append size (u ∷ []) t ((v, n), s) w e = (v, n, (w, e))
Ended-append size (u ∷ x ∷ tokens) t ((v, n), s) w e =
    (v, n, Ended-append size (x ∷ tokens) t s w e)

abbrev LexAnswer : Limits → ℕ → Result Stop (List Token) → Type 0
LexAnswer l size (ok tokens) = Ended size tokens × (length tokens ≤ l.max_tokens)
LexAnswer l size (err e) = WithinStop size e

lex-LexAnswer : (l : Limits) (input : List ℕ) → LexAnswer l (length input) (lex l input)
unfolding lex
lex-LexAnswer l input =
    go (lex_loop (length input) l 0 input [])
      (lex_loop-Lexes (length input) (length input) l 0 input [] (omega arith) (omega arith) tt)
  where
    go :
        (r : Result Stop (List Token))
        → Lexes (length input) r
        → LexAnswer l (length input) (r >>= λ tokens. ended_at l (length input) tokens)
    go (err e) h = h
    go (ok tokens) h =
        let last : Token = record {
          kind = TokenKind.eof;
          span = span_of (length input) (length input);
        } in
        elim (Bool-cases (ltb l.max_tokens (length (tokens ++ last ∷ [])))) [
          | inl q ↦ rw q tt
          | inr q ↦ rw q (
            Ended-append (length input) tokens last h (omega arith, omega arith) refl,
            ground arith,
          )
        ]

-- The tokens and the limits that an expression agrees with.
pub record Read (l : Limits) (tokens : List Token) (e : Expr) : Type 0 where
  pub printed : kinds tokens ≡ print e ++ TokenKind.eof ∷ []
  pub shape : shaped disjunction e ≡ true
  pub shallow : depth e ≤ l.max_depth
  pub few : length tokens ≤ l.max_tokens

abbrev Answer : Limits → ℕ → List Token → Result Stop Expr → Type 0
Answer l size tokens (ok e) = Read l tokens e
Answer l size tokens (err x) = WithinStop size x

only_eof :
    (size : ℕ) (tokens : List Token)
    → Ended size tokens
    → is_eof (current tokens).kind ≡ true
    → kinds tokens ≡ TokenKind.eof ∷ []
only_eof size [] h q = absurd h
only_eof size (t ∷ []) (w, h) q = ap (λ k. k ∷ []) h
only_eof size (t ∷ u ∷ tokens) (w, n, h) q = absurd (ground arith)

parsed-Answer :
    (l : Limits) (size : ℕ) (tokens : List Token) (r : Parsed)
    → Gives size disjunction tokens r
    → length tokens ≤ l.max_tokens
    → Answer l size tokens (r >>= expect_eof >>= check_depth l)
unfolding expect_eof
parsed-Answer l size tokens (err out_of_fuel) g few = absurd g
parsed-Answer l size tokens (err (refused x)) g few = g
parsed-Answer l size tokens (ok (e, rest)) (ended, fewer, same, shape) few =
    elim (Bool-cases (is_eof (current rest).kind)) [
      | inr q ↦ rw q (current-Within size rest ended)
      | inl q ↦ elim (Bool-cases (ltb l.max_depth (depth e))) [
        | inl deep ↦ rw (q, deep) tt
        | inr shallow ↦
            rw (q, shallow)
              (record {
                printed = same ∙ ap (λ k. print e ++ k) (only_eof size rest ended q);
                shape = shape;
                shallow = ground arith;
                few = few;
              })
      ]
    ]

tokens-Answer :
    (l : Limits) (size : ℕ) (tokens : List Token)
    → Ended size tokens
    → length tokens ≤ l.max_tokens
    → Answer l size tokens (parse_or (length tokens) tokens >>= expect_eof >>= check_depth l)
tokens-Answer l size tokens ended few =
    parsed-Answer l size tokens (parse_or (length tokens) tokens)
      (parse_or-Good size (length tokens) tokens ended (omega arith)) few

-- `parse` ends with an expression or an error of the code's, and where such an error has a span, that
-- lies within the input.
pub parse-WithinStop :
    (input : List ℕ) (l : Limits) (x : Stop) → parse input l ≡ err x → WithinStop (length input) x
unfolding parse
parse-WithinStop input l x h = elim (Bool-cases (ltb l.max_input_bytes (length input))) [
  | inl q ↦ subst (WithinStop (length input)) (err-injective (rw (parse, q) at h)) tt
  | inr q ↦ elim (Result-cases (lex l input)) [
    | inr (y, p) ↦
        subst (WithinStop (length input)) (err-injective (rw (parse, q, p) at h))
          (subst (LexAnswer l (length input)) p (lex-LexAnswer l input))
    | inl (tokens, p) ↦
        let (ended, few) = subst (LexAnswer l (length input)) p (lex-LexAnswer l input) in
        subst (Answer l (length input) tokens) (rw (parse, q, p) at h)
          (tokens-Answer l (length input) tokens ended few)
  ]
]

-- An expression that `parse` returns prints as the kinds of the tokens that the input is lexed to,
-- with the end after them; in it `and` binds more than `or` and both lean to the left. The
-- input, the tokens and the depth of the expression are within their limits.
pub parse-print :
    (input : List ℕ) (l : Limits) (e : Expr)
    → parse input l ≡ ok e
    → (tokens : List Token) × (lex l input ≡ ok tokens)
      × Read l tokens e
      × (length input ≤ l.max_input_bytes)
unfolding parse
parse-print input l e h = elim (Bool-cases (ltb l.max_input_bytes (length input))) [
  | inl q ↦ absurd (ground (arith, rw (parse, q) at h))
  | inr q ↦ elim (Result-cases (lex l input)) [
    | inr (y, p) ↦ absurd (ground (arith, rw (parse, q, p) at h))
    | inl (tokens, p) ↦
        let (ended, few) = subst (LexAnswer l (length input)) p (lex-LexAnswer l input) in
        (
          tokens,
          p,
          subst (Answer l (length input) tokens) (rw (parse, q, p) at h)
              (tokens-Answer l (length input) tokens ended few),
          ground arith,
        )
  ]
]
