-- ===== src/Query/Lex.antt =====
-- crates/brolga-query/src/parse.rs, `lex`: from the bytes of a query to its tokens.
-- The bytes from the index on are kept, with the index. The bytes of an identifier are ASCII, so that
-- slicing the input there does not fail.

pub mod Indexed
use brolga.Prelude.{
  ℕ, zero, suc, ◌+◌, Bool, true, false, ◌&&◌, ◌||◌, Option, some, none, List, [], ◌∷◌, ◌++◌, length,
  leb, ltb, ◌==◌, Text, codes, text_eq, if◌then◌else◌,
}
use brolga.Prelude.Results.{Result, ok, err, ◌>>=◌}
use brolga.Query.{
  Span, span_of, QueryError, lexing, limit, Limits, Reason, unterminated_escape,
  unterminated_string, not_allowed, unexpected_character, more_than_tokens,
}

pub data TokenKind : Type 0 where
  word text : Text → TokenKind
  equals differs and or left_paren right_paren eof : TokenKind

pub record Token : Type 0 where
  pub kind : TokenKind
  pub span : Span

abbrev pub is_eof : TokenKind → Bool
is_eof eof = true
is_eof _ = false

-- Out of fuel, or the error that the code returns.
pub data Stop : Type 0 where
  out_of_fuel : Stop
  refused : QueryError → Stop

abbrev pub is_ascii_whitespace : ℕ → Bool
is_ascii_whitespace b = b == b' ' || b == 9 || b == 10 || b == 12 || b == 13

abbrev pub is_ascii_alphabetic : ℕ → Bool
is_ascii_alphabetic b = (leb b'A' b && leb b b'Z') || (leb b'a' b && leb b b'z')

abbrev pub is_word : ℕ → Bool
is_word c = is_ascii_alphabetic c || (leb b'0' c && leb c b'9') || c == b'_' || c == b'-'

-- The token, where there is one, with the index after it and the bytes there.
abbrev pub Lexed : Type 0
Lexed = Result Stop (Option Token × ℕ × List ℕ)

abbrev pub token : TokenKind → ℕ → ℕ → List ℕ → Lexed
token k start end rest = ok (some (record { kind = k; span = span_of start end }), end, rest)

-- The loop over a quoted string, by whether the byte before was a backslash. Each byte is pushed as
-- a character of its own.
unfoldable pub scan_string : Bool → ℕ → ℕ → Text → List ℕ → Lexed
scan_string true start i out [] = err (refused (lexing unterminated_escape start i))
scan_string false start i out [] = err (refused (lexing unterminated_string start i))
scan_string true start i out (c ∷ bytes) = scan_string false start (i + 1) (out ++ c ∷ []) bytes
scan_string false start i out (c ∷ bytes) =
    let is_escape = c == b'\\' in
    let rest =
      scan_string is_escape start (i + 1) (if is_escape then out else out ++ c ∷ []) bytes in
    if c == b'"' then token (text out) start (i + 1) bytes else rest

-- The loop over an identifier: its bytes, and those after it.
unfoldable pub scan_word : List ℕ → Text × List ℕ
scan_word [] = ([], [])
scan_word (c ∷ bytes) =
    let (more, rest) = scan_word bytes in if is_word c then (c ∷ more, rest) else ([], c ∷ bytes)

unfoldable pub keyword : Text → TokenKind
unfolding text_eq
keyword t =
    if text_eq t (codes "and") || text_eq t (codes "AND")
    then and
    else if text_eq t (codes "or") || text_eq t (codes "OR")
    then or
    else word t

abbrev pub starts_with : ℕ → List ℕ → Bool
starts_with c [] = false
starts_with c (b ∷ bytes) = b == c

abbrev pub tail : List ℕ → List ℕ
tail [] = []
tail (b ∷ bytes) = bytes

-- The body of the loop, after the test on the tokens.
unfoldable pub lex_one : ℕ → ℕ → List ℕ → Lexed
lex_one start b bytes =
    if is_ascii_whitespace b
    then ok (none, start + 1, bytes)
    else if b == b'('
    then token left_paren start (start + 1) bytes
    else if b == b')'
    then token right_paren start (start + 1) bytes
    else if b == b'='
    then token equals start (start + 1) bytes
    else if b == b'!' && starts_with b'=' bytes
    then token differs start (start + 2) (tail bytes)
    else if b == b'"'
    then scan_string false start (start + 1) [] bytes
    else if is_ascii_alphabetic b || b == b'_'
    then (let (rest_of_word, rest) = scan_word bytes in
        token (keyword (b ∷ rest_of_word)) start (start + 1 + length rest_of_word) rest)
    else if b == b';' || b == b'-' || b == b'/' || b == b'*' || b == b'`'
    then err (refused (lexing (not_allowed b) start (start + 1)))
    else err (refused (lexing (unexpected_character b) start (start + 1)))

abbrev pub pushed : Option Token → List Token → List Token
pushed none tokens = tokens
pushed (some t) tokens = tokens ++ t ∷ []

unfoldable pub lex_loop : ℕ → Limits → ℕ → List ℕ → List Token → Result Stop (List Token)
lex_loop n l i [] tokens = ok tokens
lex_loop zero l i (b ∷ bytes) tokens = err out_of_fuel
lex_loop (suc n) l i (b ∷ bytes) tokens =
    if leb l.max_tokens (length tokens)
    then err (refused (limit (more_than_tokens l.max_tokens)))
    else lex_one i b bytes >>= λ (t, j, rest). lex_loop n l j rest (pushed t tokens)

-- The end of `lex`: the last token.
abbrev pub ended_at : Limits → ℕ → List Token → Result Stop (List Token)
ended_at l size tokens =
    let all = tokens ++ (record { kind = eof; span = span_of size size }) ∷ [] in
    if ltb l.max_tokens (length all)
    then err (refused (limit (more_than_tokens l.max_tokens)))
    else ok all

-- An iteration takes a byte at least.
unfoldable pub lex : Limits → List ℕ → Result Stop (List Token)
lex l input = lex_loop (length input) l 0 input [] >>= λ tokens. ended_at l (length input) tokens
