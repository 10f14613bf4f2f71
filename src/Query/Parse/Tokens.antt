-- ===== src/Query/Parse/Tokens.antt =====
-- The tokens that an expression of crates/brolga-query/src/syntax.rs is written with.
use brolga.Prelude.{
  ◌≡◌, refl, Bool, true, false, ◌&&◌, some, List, [], ◌∷◌, ◌++◌, Text, text_eq_iff, codes, arith,
}
use brolga.Query.{
  Field, field_str, parse_field, BinaryOp, Literal, Expr, compare, conj, disj, group,
}
use brolga.Query.Lex.{TokenKind, Token, is_eof}
use brolga.Query.Parse.{is_and, is_or, operator, literal, is_right_paren}

-- The tokens of an expression, written out.
abbrev pub operator_token : BinaryOp → TokenKind
operator_token BinaryOp.eq = TokenKind.equals
operator_token BinaryOp.ne = TokenKind.differs

abbrev pub literal_token : Literal → TokenKind
literal_token (Literal.ident s) = TokenKind.word s
literal_token (Literal.string s) = TokenKind.text s

abbrev pub print : Expr → List TokenKind
print (compare field op value span) =
    TokenKind.word (field_str field) ∷ operator_token op ∷ literal_token value ∷ []
print (conj left right span) = print left ++ TokenKind.and ∷ print right
print (disj left right span) = print left ++ TokenKind.or ∷ print right
print (group inner span) = TokenKind.left_paren ∷ print inner ++ TokenKind.right_paren ∷ []

pub data Level : Type 0 where
  primary conjunction disjunction : Level

-- `and` binds more than `or`, and both lean to the left.
abbrev pub shaped : Level → Expr → Bool
shaped l (compare field op value span) = true
shaped l (group inner span) = shaped disjunction inner
shaped primary (conj left right span) = false
shaped conjunction (conj left right span) = shaped conjunction left && shaped primary right
shaped disjunction (conj left right span) = shaped conjunction left && shaped primary right
shaped primary (disj left right span) = false
shaped conjunction (disj left right span) = false
shaped disjunction (disj left right span) = shaped disjunction left && shaped conjunction right

abbrev pub kinds : List Token → List TokenKind
kinds [] = []
kinds (t ∷ tokens) = t.kind ∷ kinds tokens

pub literal-token :
    (k : TokenKind) (v : Literal) → literal k ≡ some v → (k ≡ literal_token v) × (is_eof k ≡ false)
literal-token (TokenKind.word s) v h = ground arith
literal-token (TokenKind.text s) v h = ground arith
literal-token TokenKind.equals v h = cc
literal-token TokenKind.differs v h = cc
literal-token TokenKind.and v h = cc
literal-token TokenKind.or v h = cc
literal-token TokenKind.left_paren v h = cc
literal-token TokenKind.right_paren v h = cc
literal-token TokenKind.eof v h = cc

pub operator-token :
    (k : TokenKind) (o : BinaryOp)
    → operator k ≡ some o
    → (k ≡ operator_token o) × (is_eof k ≡ false)
operator-token (TokenKind.word s) o h = cc
operator-token (TokenKind.text s) o h = cc
operator-token TokenKind.equals o h = ground arith
operator-token TokenKind.differs o h = ground arith
operator-token TokenKind.and o h = cc
operator-token TokenKind.or o h = cc
operator-token TokenKind.left_paren o h = cc
operator-token TokenKind.right_paren o h = cc
operator-token TokenKind.eof o h = cc

pub parse_field-str : (name : Text) (f : Field) → parse_field name ≡ some f → name ≡ field_str f
unfolding parse_field
parse_field-str name f h =
    ground (arith, text_eq_iff name (codes "kind"), text_eq_iff name (codes "status"))

pub right_paren-is :
    (k : TokenKind) → is_right_paren k ≡ true → (k ≡ TokenKind.right_paren) × (is_eof k ≡ false)
right_paren-is TokenKind.right_paren h = (refl, refl)
right_paren-is (TokenKind.word s) h = cc
right_paren-is (TokenKind.text s) h = cc
right_paren-is TokenKind.equals h = cc
right_paren-is TokenKind.differs h = cc
right_paren-is TokenKind.and h = cc
right_paren-is TokenKind.or h = cc
right_paren-is TokenKind.left_paren h = cc
right_paren-is TokenKind.eof h = cc

pub and-is : (k : TokenKind) → is_and k ≡ true → (k ≡ TokenKind.and) × (is_eof k ≡ false)
and-is TokenKind.right_paren h = cc
and-is (TokenKind.word s) h = cc
and-is (TokenKind.text s) h = cc
and-is TokenKind.equals h = cc
and-is TokenKind.differs h = cc
and-is TokenKind.and h = (refl, refl)
and-is TokenKind.or h = cc
and-is TokenKind.left_paren h = cc
and-is TokenKind.eof h = cc

pub or-is : (k : TokenKind) → is_or k ≡ true → (k ≡ TokenKind.or) × (is_eof k ≡ false)
or-is TokenKind.right_paren h = cc
or-is (TokenKind.word s) h = cc
or-is (TokenKind.text s) h = cc
or-is TokenKind.equals h = cc
or-is TokenKind.differs h = cc
or-is TokenKind.and h = cc
or-is TokenKind.or h = (refl, refl)
or-is TokenKind.left_paren h = cc
or-is TokenKind.eof h = cc

pub shaped-conjunction : (e : Expr) → shaped primary e ≡ true → shaped conjunction e ≡ true
shaped-conjunction (compare f o v s) h = h
shaped-conjunction (group e s) h = h
shaped-conjunction (conj a b s) h = cc
shaped-conjunction (disj a b s) h = cc

pub shaped-disjunction : (e : Expr) → shaped conjunction e ≡ true → shaped disjunction e ≡ true
shaped-disjunction (compare f o v s) h = h
shaped-disjunction (group e s) h = h
shaped-disjunction (conj a b s) h = h
shaped-disjunction (disj a b s) h = cc
