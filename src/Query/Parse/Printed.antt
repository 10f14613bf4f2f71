-- ===== src/Query/Parse/Printed.antt =====
-- What crates/brolga-query/src/parse.rs parses prints as the tokens that it was parsed from.
use mathlib.Core.List.{append_assoc}
use brolga.Prelude.{
  ℕ, suc, ◌≤◌, ◌<◌, ◌≡◌, refl, sym, ap, ◌∙◌, inl, inr, true, false, List, [], ◌∷◌, ◌++◌, length,
  Text, arith, Bool-cases, Option-cases,
}
use brolga.Prelude.Results.{ok, err, ◌>>=◌}
use brolga.Query.{Span, Field, field_str, parse_field, BinaryOp, Expr}
use brolga.Query.Lex.{TokenKind, Token, out_of_fuel, refused, is_eof}
use brolga.Query.Parse.{
  current, bump, Parsed, operator, literal, is_right_paren, parse_value, parse_operator,
  parse_comparison, close, parse_primary_at, parse_primary,
}
use brolga.Query.Lex.Indexed.{Within, WithinError}
use brolga.Query.Parse.Tokens.{
  operator_token, print, Level, primary, disjunction, shaped, kinds, literal-token, operator-token,
  parse_field-str, right_paren-is,
}

module _ (size : ℕ) where
  -- Tokens with spans in the input, of which the last and no other is the end of the input.
  abbrev pub Ended : List Token → Type 0
  Ended [] = ⊥
  Ended (t ∷ []) = Within size t.span × (t.kind ≡ TokenKind.eof)
  Ended (t ∷ u ∷ tokens) = Within size t.span × (is_eof t.kind ≡ false) × Ended (u ∷ tokens)

  abbrev pub Gives : Level → List Token → Parsed → Type 0
  Gives l start (ok (e, rest)) =
      Ended rest
      × (length rest < length start)
      × (kinds start ≡ print e ++ kinds rest)
      × (shaped l e ≡ true)
  Gives l start (err out_of_fuel) = ⊥
  Gives l start (err (refused x)) = WithinError size x

  pub bump_lem :
      (tokens : List Token)
      → Ended tokens
      → is_eof (current tokens).kind ≡ false
      → Ended (bump tokens)
        × (length (bump tokens) < length tokens)
        × (kinds tokens ≡ (current tokens).kind ∷ kinds (bump tokens))
  unfolding bump
  bump_lem [] h n = absurd h
  bump_lem (t ∷ []) (w, h) n = absurd (ground (arith, ap is_eof h))
  bump_lem (t ∷ u ∷ tokens) (w, m, h) n = (h, omega arith, refl)

  pub current-Within : (tokens : List Token) → Ended tokens → Within size (current tokens).span
  current-Within [] h = absurd h
  current-Within (t ∷ []) (w, h) = w
  current-Within (t ∷ u ∷ tokens) (w, m, h) = w

  parse_value-Gives :
      (l : Level) (all tokens : List Token) (s : Span) (f : Field) (o : BinaryOp)
      → Ended tokens
      → length tokens < length all
      → kinds all ≡ TokenKind.word (field_str f) ∷ operator_token o ∷ kinds tokens
      → Gives l all (parse_value s f o tokens)
  unfolding parse_value
  parse_value-Gives l all tokens s f o ended fewer same =
      elim (Option-cases (literal (current tokens).kind)) [
        | inl q ↦ rw (parse_value, q) (current-Within tokens ended)
        | inr (v, q) ↦
            let (is, more) = literal-token (current tokens).kind v q in
            let (ended', fewer', next) = bump_lem tokens ended more in
            rw (parse_value, q)
              (
                ended',
                omega arith,
                same
                    ∙ ap (λ k. TokenKind.word (field_str f) ∷ operator_token o ∷ k)
                        (next ∙ ap (λ k. k ∷ kinds (bump tokens)) is),
                refl,
              )
      ]

  parse_operator-Gives :
      (l : Level) (all tokens : List Token) (s : Span) (f : Field)
      → Ended tokens
      → length tokens < length all
      → kinds all ≡ TokenKind.word (field_str f) ∷ kinds tokens
      → Gives l all (parse_operator s f tokens)
  unfolding parse_operator
  parse_operator-Gives l all tokens s f ended fewer same =
      elim (Option-cases (operator (current tokens).kind)) [
        | inl q ↦ rw (parse_operator, q) (current-Within tokens ended)
        | inr (o, q) ↦
            let (is, more) = operator-token (current tokens).kind o q in
            let (ended', fewer', next) = bump_lem tokens ended more in
            rw (parse_operator, q)
              (parse_value-Gives l all (bump tokens) s f o ended' (omega arith) (
                same
                ∙ ap (λ k. TokenKind.word (field_str f) ∷ k)
                    (next ∙ ap (λ k. k ∷ kinds (bump tokens)) is)))
      ]

  parse_comparison-Gives :
      (l : Level) (tokens : List Token) (t : Token) (name : Text)
      → Ended tokens
      → (current tokens).kind ≡ TokenKind.word name
      → Within size t.span
      → Gives l tokens (parse_comparison t name tokens)
  unfolding parse_comparison
  parse_comparison-Gives l tokens t name ended is within = elim (Option-cases (parse_field name)) [
    | inl q ↦ rw (parse_comparison, q) within
    | inr (f, q) ↦
        let (ended', fewer, next) = bump_lem tokens ended (ap is_eof is) in
        rw (parse_comparison, q)
          (parse_operator-Gives l tokens (bump tokens) t.span f ended' fewer (
            next
            ∙ ap (λ k. k ∷ kinds (bump tokens))
                (is ∙ ap TokenKind.word (parse_field-str name f q))))
  ]

  -- A step on what an expression was parsed from.
  pub Gives-bind :
      (l m : Level) (tokens all : List Token) (r : Parsed) (f : Expr × List Token → Parsed)
      → Gives l tokens r
      → ((e : Expr) (rest : List Token)
          → Ended rest
          → length rest < length tokens
          → kinds tokens ≡ print e ++ kinds rest
          → shaped l e ≡ true
          → Gives m all (f (e, rest)))
      → Gives m all (r >>= f)
  Gives-bind l m tokens all (ok (e, rest)) f (a, b, c, d) k = k e rest a b c d
  Gives-bind l m tokens all (err out_of_fuel) f h k = absurd h
  Gives-bind l m tokens all (err (refused x)) f h k = h

  abbrev pub Good : Level → ℕ → (List Token → Parsed) → Type 0
  Good l n p = (tokens : List Token) → Ended tokens → length tokens ≤ n → Gives l tokens (p tokens)

  close-Gives :
      (l : Level) (all rest : List Token) (s : Span) (inner : Expr)
      → Ended rest
      → length rest < length all
      → kinds all ≡ TokenKind.left_paren ∷ print inner ++ kinds rest
      → shaped disjunction inner ≡ true
      → Gives l all (close s inner rest)
  unfolding close
  close-Gives l all rest s inner ended fewer same shape =
      elim (Bool-cases (is_right_paren (current rest).kind)) [
        | inr q ↦ rw (close, q) (current-Within rest ended)
        | inl q ↦
            let (is, more) = right_paren-is (current rest).kind q in
            let (ended', fewer', next) = bump_lem rest ended more in
            rw (close, q)
              (
                ended',
                omega arith,
                same
                    ∙ ap (λ k. TokenKind.left_paren ∷ k)
                        (ap (λ k. print inner ++ k) (next ∙ ap (λ k. k ∷ kinds (bump rest)) is)
                          ∙ sym (
                              append_assoc (print inner) (TokenKind.right_paren ∷ [])
                                (kinds (bump rest)))),
                shape,
              )
      ]

  primary_at-Gives :
      (n : ℕ) (p : List Token → Parsed) (k : TokenKind) (tokens : List Token)
      → Good disjunction n p
      → Ended tokens
      → length tokens ≤ suc n
      → (current tokens).kind ≡ k
      → Gives primary tokens (parse_primary_at p (current tokens) k tokens)
  unfolding parse_primary_at
  primary_at-Gives n p TokenKind.left_paren tokens good ended few is =
      let (ended', fewer, next) = bump_lem tokens ended (ap is_eof is) in
      Gives-bind disjunction primary (bump tokens) tokens (p (bump tokens))
        (λ x. close (current tokens).span x.0 x.1) (good (bump tokens) ended' (omega arith))
        (λ e rest ended2 fewer2 same shape.
          close-Gives primary tokens rest (current tokens).span e ended2 (omega arith)
            (next ∙ ap (λ k. k ∷ kinds (bump tokens)) is ∙ ap (λ k. TokenKind.left_paren ∷ k) same)
            shape)
  primary_at-Gives n p (TokenKind.word name) tokens good ended few is =
      parse_comparison-Gives primary tokens (current tokens) name ended is
        (current-Within tokens ended)
  primary_at-Gives n p TokenKind.eof tokens good ended few is = current-Within tokens ended
  primary_at-Gives n p (TokenKind.text s) tokens good ended few is = current-Within tokens ended
  primary_at-Gives n p TokenKind.equals tokens good ended few is = current-Within tokens ended
  primary_at-Gives n p TokenKind.differs tokens good ended few is = current-Within tokens ended
  primary_at-Gives n p TokenKind.and tokens good ended few is = current-Within tokens ended
  primary_at-Gives n p TokenKind.or tokens good ended few is = current-Within tokens ended
  primary_at-Gives n p TokenKind.right_paren tokens good ended few is = current-Within tokens ended

  pub parse_primary-Good :
      (n : ℕ) (p : List Token → Parsed)
      → Good disjunction n p
      → Good primary (suc n) (parse_primary p)
  unfolding parse_primary
  parse_primary-Good n p good tokens ended few =
      primary_at-Gives n p (current tokens).kind tokens good ended few refl
