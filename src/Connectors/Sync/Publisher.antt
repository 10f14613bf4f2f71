-- ===== src/Connectors/Sync/Publisher.antt =====
-- `bounded_publisher`: the publisher that a run gives to what it reads.
use brolga.Prelude.{
  ℕ, zero, suc, ◌+◌, ◌-◌, ◌≤◌, ◌≡◌, refl, Bool, true, false, Option, none, some, [], ◌∷◌, Text,
  codes, leb, ◌==◌, if◌then◌else◌, All, arith, inl, inr, Bool-cases,
}
use Prim.Native.Nat.{min}
use brolga.Prelude.Results.{ok}
use brolga.Model.Bounded.{
  byte_length, len_utf8, short_text, bounded_text, short_text_max_bytes, is_control,
  reject_control_characters,
}

abbrev pub is_nil : Text → Bool
is_nil [] = true
is_nil (c ∷ s) = false

-- `trim_end_matches('/')`
unfoldable pub trim_end_slashes : Text → Text
trim_end_slashes [] = []
trim_end_slashes (c ∷ s) =
    let rest = trim_end_slashes s in
    if c == b'/' then (if is_nil rest then [] else c ∷ rest) else c ∷ rest

abbrev prefixed : ℕ → Option Text → Option Text
prefixed c none = none
prefixed c (some s) = some (c ∷ s)

-- `is_char_boundary` and `get(..end)`, as the standard library documents them.
unfoldable pub is_char_boundary : Text → ℕ → Bool
is_char_boundary s zero = true
is_char_boundary [] (suc i) = false
is_char_boundary (c ∷ s) (suc i) =
    let rest = is_char_boundary s (suc i - len_utf8 c) in
    if leb (len_utf8 c) (suc i) then rest else false

unfoldable pub get_to : Text → ℕ → Option Text
get_to s zero = some []
get_to [] (suc i) = none
get_to (c ∷ s) (suc i) =
    let rest = prefixed c (get_to s (suc i - len_utf8 c)) in
    if leb (len_utf8 c) (suc i) then rest else none

-- The loop that moves `end` back to a boundary.
unfoldable pub floor_boundary : Text → ℕ → ℕ
floor_boundary s zero = zero
floor_boundary s (suc end) =
    let rest = floor_boundary s end in if is_char_boundary s (suc end) then suc end else rest

abbrev or_taxii : Option Text → Text
or_taxii none = codes "taxii"
or_taxii (some []) = codes "taxii"
or_taxii (some (c ∷ s)) = c ∷ s

unfoldable pub bounded_publisher : Text → Text
unfolding trim_end_slashes get_to floor_boundary byte_length
bounded_publisher api_root =
    let trimmed = trim_end_slashes api_root in
    or_taxii
      (get_to trimmed (floor_boundary trimmed (min (byte_length trimmed) short_text_max_bytes)))

floor-le : (s : Text) (end : ℕ) → floor_boundary s end ≤ end
unfolding floor_boundary
floor-le s zero = omega arith
floor-le s (suc end) = ground (arith, floor-le s end)

Printable : Text → Type 0
Printable = All (λ c. is_control c ≡ false)

-- What is read up to a boundary: it has no more bytes, and no other characters.
Reads : Text → ℕ → Option Text → Type 0
Reads s i none = ⊥
Reads s i (some t) = (byte_length t ≤ i) × (Printable s → Printable t)

prefixed-Reads :
    (c : ℕ) (s : Text) (i : ℕ) (t : Option Text)
    → len_utf8 c ≤ i
    → Reads s (i - len_utf8 c) t
    → Reads (c ∷ s) i (prefixed c t)
unfolding byte_length Printable Reads
prefixed-Reads c s i none h r = r
prefixed-Reads c s i (some t) h r = (omega (arith, r.0), λ p. (p.0, r.1 p.1))

get_to-Reads : (s : Text) (i : ℕ) → is_char_boundary s i ≡ true → Reads s i (get_to s i)
unfolding is_char_boundary get_to byte_length Printable Reads
get_to-Reads s zero h = (omega arith, λ p. tt)
get_to-Reads [] (suc i) h = cc
get_to-Reads (c ∷ s) (suc i) h = elim (Bool-cases (leb (len_utf8 c) (suc i))) [
  | inl q ↦
      rw (get_to, q)
        (prefixed-Reads c s (suc i) (get_to s (suc i - len_utf8 c)) (ground (arith, q))
          (get_to-Reads s (suc i - len_utf8 c) (rw (is_char_boundary, q) at h)))
  | inr q ↦ cc (rw (is_char_boundary, q) at h)
]

floor-is : (s : Text) (end : ℕ) → is_char_boundary s (floor_boundary s end) ≡ true
unfolding floor_boundary is_char_boundary
floor-is s zero = refl
floor-is s (suc end) = ground (arith, floor-is s end)

if-Printable : (b : Bool) (s t : Text) → Printable s → Printable t → Printable (if b then s else t)
if-Printable true s t p q = p
if-Printable false s t p q = q

trimmed-Printable : (s : Text) → Printable s → Printable (trim_end_slashes s)
unfolding trim_end_slashes Printable
trimmed-Printable [] p = tt
trimmed-Printable (c ∷ s) p =
    let rest = trimmed-Printable s p.1 in
    if-Printable (c == b'/') (if is_nil (trim_end_slashes s) then [] else c ∷ trim_end_slashes s)
      (c ∷ trim_end_slashes s)
      (if-Printable (is_nil (trim_end_slashes s)) [] (c ∷ trim_end_slashes s) tt (p.0, rest))
      (p.0, rest)

no_controls :
    (s field : Text) (i : ℕ) → Printable s → reject_control_characters s field false i ≡ ok tt
unfolding reject_control_characters Printable
no_controls [] field i p = refl
no_controls (c ∷ s) field i p = ground (arith, p.0, no_controls s field (i + 1) p.1)

accepted :
    (c : ℕ) (s : Text)
    → Printable (c ∷ s)
    → byte_length (c ∷ s) ≤ short_text_max_bytes
    → short_text (c ∷ s) ≡ ok (c ∷ s)
unfolding short_text bounded_text
accepted c s p h = ground (arith, no_controls (c ∷ s) (codes "ShortText") 0 p)

or_taxii-accepted :
    (s : Text) (i : ℕ) (t : Option Text)
    → Printable s
    → i ≤ short_text_max_bytes
    → Reads s i t
    → short_text (or_taxii t) ≡ ok (or_taxii t)
unfolding Reads short_text bounded_text byte_length reject_control_characters
or_taxii-accepted s i none p h r = absurd r
or_taxii-accepted s i (some []) p h r = refl
or_taxii-accepted s i (some (c ∷ t)) p h r = accepted c t (r.1 p) (omega (arith, r.0))

-- The publisher of any API root without control characters is accepted as a `ShortText`.
pub bounded_publisher-accepted :
    (api_root : Text)
    → All (λ c. is_control c ≡ false) api_root
    → short_text (bounded_publisher api_root) ≡ ok (bounded_publisher api_root)
unfolding bounded_publisher Printable
bounded_publisher-accepted api_root p =
    let trimmed = trim_end_slashes api_root in
    let wanted = min (byte_length trimmed) short_text_max_bytes in
    let end = floor_boundary trimmed wanted in
    or_taxii-accepted trimmed end (get_to trimmed end) (trimmed-Printable api_root p)
      (omega (arith, floor-le trimmed wanted)) (get_to-Reads trimmed end (floor-is trimmed wanted))
