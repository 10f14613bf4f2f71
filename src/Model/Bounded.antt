-- ===== src/Model/Bounded.antt =====
-- crates/brolga-model/src/text.rs, `ShortText`, and crates/brolga-model/src/provenance/source.rs,
-- `MediaType`: texts that are checked when they are made. A checked text is the text itself, and of
-- crates/brolga-model/src/error.rs the refusals that these make are here.
use brolga.Prelude.{
  ℕ, ◌+◌, Bool, true, false, ◌&&◌, ◌||◌, not, Option, none, some, [], ◌∷◌, ◌++◌, Text, codes,
  to_ascii_lowercase, ltb, leb, ◌==◌, if◌then◌else◌, ltb,
}
use brolga.Prelude.Results.{Result, ok, err, ◌>>=◌}

pub data ModelError : Type 0 where
  too_long : (field : Text) (max actual : ℕ) → ModelError
  is_empty : (field : Text) → ModelError
  forbidden_control_character : (field : Text) (index : ℕ) → ModelError
  invalid_value : (kind reason : Text) → ModelError

-- `char::len_utf8` and `str::len`, as the standard library documents them.
abbrev pub len_utf8 : ℕ → ℕ
len_utf8 c = if ltb c 128 then 1 else if ltb c 2048 then 2 else if ltb c 65536 then 3 else 4

unfoldable pub byte_length : Text → ℕ
byte_length [] = 0
byte_length (c ∷ s) = len_utf8 c + byte_length s

-- `char::is_control`
abbrev pub is_control : ℕ → Bool
is_control c = ltb c 32 || (leb 127 c && leb c 159)

-- From the character with this index on.
unfoldable pub reject_control_characters : Text → Text → Bool → ℕ → Result ModelError (Unit {0})
reject_control_characters [] field allow_whitespace index = ok tt
reject_control_characters (c ∷ s) field allow_whitespace index =
    let rest = reject_control_characters s field allow_whitespace (index + 1) in
    let permitted = allow_whitespace && (c == 10 || c == 13 || c == 9) in
    if is_control c && not permitted then err (forbidden_control_character field index) else rest

abbrev is_nil : Text → Bool
is_nil [] = true
is_nil (c ∷ s) = false

abbrev pub short_text_max_bytes : ℕ
short_text_max_bytes = 512

unfoldable pub bounded_text : Text → ℕ → Bool → Bool → Text → Result ModelError Text
unfolding reject_control_characters byte_length
bounded_text field max allow_whitespace allow_empty value =
    if not allow_empty && is_nil value
    then err (is_empty field)
    else if ltb max (byte_length value)
    then err (too_long field max (byte_length value))
    else reject_control_characters value field allow_whitespace 0 >>= λ u. ok value

-- `ShortText::new`
unfoldable pub short_text : Text → Result ModelError Text
unfolding bounded_text
short_text = bounded_text (codes "ShortText") short_text_max_bytes false false

abbrev pub media_type_max_bytes : ℕ
media_type_max_bytes = 128

-- `char::is_whitespace`, as the standard library documents it.
abbrev is_whitespace : ℕ → Bool
is_whitespace c =
    (leb 9 c && leb c 13)
    || c == 32
    || c == 133
    || c == 160
    || c == 5760
    || (leb 8192 c && leb c 8202)
    || c == 8232
    || c == 8233
    || c == 8239
    || c == 8287
    || c == 12288

trim_start : Text → Text
trim_start [] = []
trim_start (c ∷ s) = let rest = trim_start s in if is_whitespace c then rest else c ∷ s

-- A character stays before what is kept of those after it.
trim_end : Text → Text
trim_end [] = []
trim_end (c ∷ s) = if is_whitespace c && is_nil (trim_end s) then [] else c ∷ trim_end s

-- `split(';').next()`
before_parameters : Text → Text
before_parameters [] = []
before_parameters (c ∷ s) = let rest = before_parameters s in if c == b';' then [] else c ∷ rest

abbrev after_one : ℕ → Option (Text × Text) → Option (Text × Text)
after_one c none = none
after_one c (some (a, b)) = some (c ∷ a, b)

-- `split_once('/')`
split_once : Text → Option (Text × Text)
split_once [] = none
split_once (c ∷ s) =
    let rest = after_one c (split_once s) in if c == b'/' then some ([], s) else rest

is_token_character : ℕ → Bool
is_token_character c =
    (leb b'0' c && leb c b'9')
    || (leb b'a' c && leb c b'z')
    || (leb b'A' c && leb c b'Z')
    || c == b'!'
    || c == b'#'
    || c == b'$'
    || c == b'&'
    || c == b'^'
    || c == b'_'
    || c == b'-'
    || c == b'.'
    || c == b'+'

are_token : Text → Bool
unfolding is_token_character
are_token [] = true
are_token (c ∷ s) = is_token_character c && are_token s

is_token : Text → Bool
unfolding are_token
is_token s = not (is_nil s) && are_token s

of_parts : Option (Text × Text) → Result ModelError Text
unfolding is_token
of_parts none = err (invalid_value (codes "MediaType") (codes "expected the form type/subtype"))
of_parts (some (kind, subtype)) =
    if not (is_token kind) || not (is_token subtype)
    then err (
        invalid_value (codes "MediaType")
          (codes "type and subtype must be non-empty RFC 9110 tokens"))
    else ok (kind ++ b'/' ∷ subtype)

-- `MediaType::new`
unfoldable pub media_type : Text → Result ModelError Text
unfolding byte_length to_ascii_lowercase trim_start trim_end before_parameters split_once of_parts
media_type raw =
    if ltb media_type_max_bytes (byte_length raw)
    then err (too_long (codes "MediaType") media_type_max_bytes (byte_length raw))
    else of_parts (split_once (trim_end (trim_start (before_parameters (to_ascii_lowercase raw)))))
