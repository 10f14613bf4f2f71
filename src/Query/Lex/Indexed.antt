-- ===== src/Query/Lex/Indexed.antt =====
-- The lexer of crates/brolga-query/src/parse.rs: it ends, and its spans lie within the input.
use brolga.Prelude.{
  ℕ, zero, suc, ◌+◌, ◌≤◌, ◌<◌, ◌≡◌, refl, inl, inr, Bool, true, false, ◌&&◌, ◌||◌, Option, some,
  none, List, [], ◌∷◌, ◌++◌, length, leb, ◌==◌, Text, arith, Bool-cases, if◌then◌else◌,
}
use brolga.Prelude.Results.{Result, ok, err, ◌>>=◌}
use brolga.Query.{Span, QueryError, lexing, parsing, limit, compiling, Limits}
use brolga.Query.Lex.{
  TokenKind, Token, Stop, out_of_fuel, refused, is_eof, Lexed, token, scan_string, scan_word,
  is_word, is_ascii_whitespace, is_ascii_alphabetic, starts_with, tail, lex_one, pushed, lex_loop,
  keyword,
}

-- A span, or that of an error, lies within an input of so many bytes.
abbrev pub Within : ℕ → Span → Type 0
Within size s = (s.start ≤ s.end) × (s.end ≤ size)

abbrev pub WithinError : ℕ → QueryError → Type 0
WithinError size (lexing why start end) = (start ≤ end) × (end ≤ size)
WithinError size (parsing why start end) = (start ≤ end) × (end ≤ size)
WithinError size (limit why) = Unit
WithinError size (compiling why) = Unit

abbrev pub WithinStop : ℕ → Stop → Type 0
WithinStop size out_of_fuel = ⊥
WithinStop size (refused e) = WithinError size e

abbrev pub WithinToken : ℕ → Option Token → Type 0
WithinToken size none = Unit
WithinToken size (some t) = Within size t.span × (is_eof t.kind ≡ false)

-- What one iteration leaves of an input of so many bytes: fewer than it had, with their index.
abbrev Advances : ℕ → ℕ → Lexed → Type 0
Advances size had (ok (t, j, rest)) =
    WithinToken size t × (j + length rest ≡ size) × (length rest < had)
Advances size had (err e) = WithinStop size e

scan_string-Advances :
    (size had : ℕ) (escaped : Bool) (start i : ℕ) (out : Text) (bytes : List ℕ)
    → start ≤ i
    → i + length bytes ≡ size
    → length bytes < had
    → Advances size had (scan_string escaped start i out bytes)
unfolding scan_string
scan_string-Advances size had true start i out [] h e f = (h, omega arith)
scan_string-Advances size had false start i out [] h e f = (h, omega arith)
scan_string-Advances size had true start i out (c ∷ bytes) h e f =
    scan_string-Advances size had false start (i + 1) (out ++ c ∷ []) bytes (omega arith)
      (omega arith) (omega arith)
scan_string-Advances size had false start i out (c ∷ bytes) h e f = elim (Bool-cases (c == b'"')) [
  | inl q ↦ rw q (((omega arith, omega arith), refl), omega arith, omega arith)
  | inr q ↦ rw q (
      scan_string-Advances size had (c == b'\\') start (i + 1)
        (if c == b'\\' then out else out ++ c ∷ []) bytes (omega arith) (omega arith) (omega arith))
]

scan_word-length :
    (bytes : List ℕ) → length (scan_word bytes).0 + length (scan_word bytes).1 ≡ length bytes
unfolding scan_word
scan_word-length [] = refl
scan_word-length (c ∷ bytes) = elim (Bool-cases (is_word c)) [
  | inl q ↦ let more = scan_word-length bytes in rw q (omega arith)
  | inr q ↦ rw q (omega arith)
]

keyword-is_eof : (t : Text) → is_eof (keyword t) ≡ false
unfolding keyword
keyword-is_eof t = ground arith

length-tail :
    (c : ℕ) (bytes : List ℕ) (b : Bool)
    → (b && starts_with c bytes) ≡ true
    → suc (length (tail bytes)) ≡ length bytes
length-tail c [] b h = absurd (ground arith)
length-tail c (a ∷ bytes) b h = refl

lex_one-Advances :
    (size i b : ℕ) (bytes : List ℕ)
    → i + suc (length bytes) ≡ size
    → Advances size (suc (length bytes)) (lex_one i b bytes)
unfolding lex_one
lex_one-Advances size i b bytes e =
    let had = suc (length bytes) in
    let one : (k : TokenKind) → is_eof k ≡ false → Advances size had (token k i (i + 1) bytes) =
      λ k p. (((omega arith, omega arith), p), omega arith, omega arith) in
    let split = scan_word-length bytes in
    elim (Bool-cases (is_ascii_whitespace b)) [
      | inl q0 ↦ rw (q0) (tt, omega arith, omega arith)
      | inr q0 ↦ elim (Bool-cases (b == b'(')) [
        | inl q1 ↦ rw (q0, q1) (one TokenKind.left_paren refl)
        | inr q1 ↦ elim (Bool-cases (b == b')')) [
          | inl q2 ↦ rw (q0, q1, q2) (one TokenKind.right_paren refl)
          | inr q2 ↦ elim (Bool-cases (b == b'=')) [
            | inl q3 ↦ rw (q0, q1, q2, q3) (one TokenKind.equals refl)
            | inr q3 ↦ elim (Bool-cases (b == b'!' && starts_with b'=' bytes)) [
              | inl q4 ↦
                  rw (q0, q1, q2, q3, q4)
                    (let t = length-tail b'=' bytes (b == b'!') q4 in
                      (((omega arith, omega arith), refl), omega arith, omega arith))
              | inr q4 ↦ elim (Bool-cases (b == b'"')) [
                | inl q5 ↦
                    rw (q0, q1, q2, q3, q4, q5)
                      (scan_string-Advances size had false i (i + 1) [] bytes (omega arith)
                        (omega arith) (omega arith))
                | inr q5 ↦ elim (Bool-cases (is_ascii_alphabetic b || b == b'_')) [
                  | inl q6 ↦
                      rw (q0, q1, q2, q3, q4, q5, q6)
                        (
                          ((omega arith, omega arith), keyword-is_eof (b ∷ (scan_word bytes).0)),
                          omega arith,
                          omega arith,
                        )
                  | inr q6 ↦
                      elim (Bool-cases
                        (b == b';' || b == b'-' || b == b'/' || b == b'*' || b == b'`')) [
                          | inl q7 ↦ rw (q0, q1, q2, q3, q4, q5, q6, q7) (omega arith, omega arith)
                          | inr q7 ↦ rw (q0, q1, q2, q3, q4, q5, q6, q7) (omega arith, omega arith)
                        ]
                ]
              ]
            ]
          ]
        ]
      ]
    ]

-- Tokens with spans in the input, none of them its end.
abbrev pub Spans : ℕ → List Token → Type 0
Spans size [] = Unit
Spans size (t ∷ tokens) = (Within size t.span × (is_eof t.kind ≡ false)) × Spans size tokens

Spans-pushed :
    (size : ℕ) (t : Option Token) (tokens : List Token)
    → WithinToken size t
    → Spans size tokens
    → Spans size (pushed t tokens)
Spans-pushed size none tokens w s = s
Spans-pushed size (some t) [] w s = (w, tt)
Spans-pushed size (some t) (u ∷ tokens) w (v, s) = (v, Spans-pushed size (some t) tokens w s)

abbrev pub Lexes : ℕ → Result Stop (List Token) → Type 0
Lexes size (ok tokens) = Spans size tokens
Lexes size (err e) = WithinStop size e

Lexes-bind :
    (size had : ℕ) (r : Lexed) (f : Option Token × ℕ × List ℕ → Result Stop (List Token))
    → Advances size had r
    → ((t : Option Token) (j : ℕ) (rest : List ℕ)
        → WithinToken size t
        → j + length rest ≡ size
        → length rest < had
        → Lexes size (f (t, j, rest)))
    → Lexes size (r >>= f)
Lexes-bind size had (ok (t, j, rest)) f (a, b, c) k = k t j rest a b c
Lexes-bind size had (err e) f h k = h

-- Fuel for every byte is enough.
pub lex_loop-Lexes :
    (n size : ℕ) (l : Limits) (i : ℕ) (bytes : List ℕ) (tokens : List Token)
    → i + length bytes ≡ size
    → length bytes ≤ n
    → Spans size tokens
    → Lexes size (lex_loop n l i bytes tokens)
unfolding lex_loop
lex_loop-Lexes zero size l i [] tokens e few s = s
lex_loop-Lexes (suc n) size l i [] tokens e few s = s
lex_loop-Lexes zero size l i (b ∷ bytes) tokens e few s = absurd (omega arith)
lex_loop-Lexes (suc n) size l i (b ∷ bytes) tokens e few s =
    elim (Bool-cases (leb l.max_tokens (length tokens))) [
      | inl q ↦ rw q tt
      | inr q ↦ rw q (
          Lexes-bind size (suc (length bytes)) (lex_one i b bytes)
            (λ x. lex_loop n l x.1 x.2 (pushed x.0 tokens))
            (lex_one-Advances size i b bytes (omega arith))
            (λ t j rest w f fewer.
              lex_loop-Lexes n size l j rest (pushed t tokens) f (omega arith)
                (Spans-pushed size t tokens w s)))
    ]
