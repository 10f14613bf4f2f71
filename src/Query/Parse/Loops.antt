-- ===== src/Query/Parse/Loops.antt =====
-- The loops of crates/brolga-query/src/parse.rs, and that `parse_or` has fuel enough.
use mathlib.Core.List.{append_assoc}
use brolga.Prelude.{
  ℕ, zero, suc, ◌≤◌, ◌<◌, ◌≡◌, sym, ap, ◌∙◌, inl, inr, true, List, [], ◌∷◌, ◌++◌, length, arith,
  Bool-cases,
}
use brolga.Query.{Expr, conj, disj}
use brolga.Query.Lex.{TokenKind, Token}
use brolga.Query.Parse.{
  current, bump, Parsed, is_and, is_or, parse_primary, and_loop, parse_and, or_loop, parse_or,
  covering,
}
use brolga.Query.Parse.Printed.{Ended, Gives, bump_lem, Gives-bind, Good, parse_primary-Good}
use brolga.Query.Parse.Tokens.{
  print, primary, conjunction, disjunction, shaped, kinds, and-is, or-is, shaped-conjunction,
  shaped-disjunction,
}

module _ (size : ℕ) where
  and_loop-Gives :
      (n m : ℕ) (p : List Token → Parsed) (all tokens : List Token) (left : Expr)
      → Good size primary m p
      → Ended size tokens
      → length tokens ≤ n
      → length tokens ≤ m
      → length tokens < length all
      → kinds all ≡ print left ++ kinds tokens
      → shaped conjunction left ≡ true
      → Gives size conjunction all (and_loop n p left tokens)
  unfolding and_loop
  and_loop-Gives zero m p all [] left good ended few within fewer same shape = absurd ended
  and_loop-Gives zero m p all (t ∷ tokens) left good ended few within fewer same shape =
      absurd (omega arith)
  and_loop-Gives (suc n) m p all tokens left good ended few within fewer same shape =
      elim (Bool-cases (is_and (current tokens).kind)) [
        | inr q ↦ rw (and_loop, q) (ended, fewer, same, shape)
        | inl q ↦
            let (is, more) = and-is (current tokens).kind q in
            let (ended', fewer', next) = bump_lem size tokens ended more in
            rw (and_loop, q)
              (Gives-bind size primary conjunction (bump tokens) all (p (bump tokens))
                (λ x. and_loop n p (conj left x.0 (covering left x.0)) x.1)
                (good (bump tokens) ended' (omega arith))
                (λ e rest ended2 fewer2 same2 shape2.
                  and_loop-Gives n m p all rest (conj left e (covering left e)) good ended2
                    (omega arith) (omega arith) (omega arith)
                    (same
                      ∙ ap (λ k. print left ++ k)
                          (next
                            ∙ ap (λ k. k ∷ kinds (bump tokens)) is
                            ∙ ap (λ k. TokenKind.and ∷ k) same2)
                      ∙ sym (append_assoc (print left) (TokenKind.and ∷ print e) (kinds rest)))
                    (ground (arith, shape, shape2))))
      ]

  parse_and-Good :
      (n : ℕ) (p : List Token → Parsed)
      → Good size primary (suc n) p
      → Good size conjunction (suc n) (parse_and n p)
  unfolding parse_and
  parse_and-Good n p good tokens ended few =
      Gives-bind size primary conjunction tokens tokens (p tokens) (λ x. and_loop n p x.0 x.1)
        (good tokens ended few)
        (λ e rest ended' fewer same shape.
          and_loop-Gives n (suc n) p tokens rest e good ended' (omega arith) (omega arith) fewer
            same (shaped-conjunction e shape))

  or_loop-Gives :
      (n m : ℕ) (p : List Token → Parsed) (all tokens : List Token) (left : Expr)
      → Good size conjunction m p
      → Ended size tokens
      → length tokens ≤ n
      → length tokens ≤ m
      → length tokens < length all
      → kinds all ≡ print left ++ kinds tokens
      → shaped disjunction left ≡ true
      → Gives size disjunction all (or_loop n p left tokens)
  unfolding or_loop
  or_loop-Gives zero m p all [] left good ended few within fewer same shape = absurd ended
  or_loop-Gives zero m p all (t ∷ tokens) left good ended few within fewer same shape =
      absurd (omega arith)
  or_loop-Gives (suc n) m p all tokens left good ended few within fewer same shape =
      elim (Bool-cases (is_or (current tokens).kind)) [
        | inr q ↦ rw (or_loop, q) (ended, fewer, same, shape)
        | inl q ↦
            let (is, more) = or-is (current tokens).kind q in
            let (ended', fewer', next) = bump_lem size tokens ended more in
            rw (or_loop, q)
              (Gives-bind size conjunction disjunction (bump tokens) all (p (bump tokens))
                (λ x. or_loop n p (disj left x.0 (covering left x.0)) x.1)
                (good (bump tokens) ended' (omega arith))
                (λ e rest ended2 fewer2 same2 shape2.
                  or_loop-Gives n m p all rest (disj left e (covering left e)) good ended2
                    (omega arith) (omega arith) (omega arith)
                    (same
                      ∙ ap (λ k. print left ++ k)
                          (next
                            ∙ ap (λ k. k ∷ kinds (bump tokens)) is
                            ∙ ap (λ k. TokenKind.or ∷ k) same2)
                      ∙ sym (append_assoc (print left) (TokenKind.or ∷ print e) (kinds rest)))
                    (ground (arith, shape, shape2))))
      ]

  -- Fuel for every token is enough.
  pub parse_or-Good : (n : ℕ) → Good size disjunction n (parse_or n)
  unfolding parse_or
  parse_or-Good zero [] ended few = absurd ended
  parse_or-Good zero (t ∷ tokens) ended few = absurd (omega arith)
  parse_or-Good (suc n) tokens ended few =
      let operand = parse_and n (parse_primary (parse_or n)) in
      let good : Good size conjunction (suc n) operand =
        parse_and-Good n (parse_primary (parse_or n))
          (parse_primary-Good size n (parse_or n) (parse_or-Good n)) in
      Gives-bind size conjunction disjunction tokens tokens (operand tokens)
        (λ x. or_loop n operand x.0 x.1) (good tokens ended few)
        (λ e rest ended' fewer same shape.
          or_loop-Gives n (suc n) operand tokens rest e good ended' (omega arith) (omega arith)
            fewer same (shaped-disjunction e shape))
