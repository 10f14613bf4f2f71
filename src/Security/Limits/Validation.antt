-- ===== src/Security/Limits/Validation.antt =====
-- What the range checks of crates/brolga-security/src/limits.rs accept and refuse.
use brolga.Prelude.{ℕ, ◌*◌, ◌≤◌, ◌<◌, ◌≡◌, refl, ◌↔◌, ◌⊎◌, true, arith, u64_max}
use brolga.Security.Limits.{LimitOutOfRange, Checked, ok, err, check, ◌>>◌}
use brolga.Security.Limits.Input
use brolga.Security.Limits.Archive
use brolga.Security.Limits.Archive.{ArchiveLimits}
use brolga.Security.Limits.Xml
use brolga.Security.Limits.Response
use brolga.Security.Limits.Resource
use brolga.Security.Limits.Resource.{ResourceLimits, IsInRange}

input_iff : (l : Input.InputLimits) → (Input.validated l ≡ ok l) ↔ Input.IsInRange l
unfolding Input.validated check
input_iff l = (λ h. ground arith, λ h. ground arith)

archive_iff : (l : Archive.ArchiveLimits) → (Archive.validated l ≡ ok l) ↔ Archive.IsInRange l
unfolding Archive.validated check
archive_iff l = (λ h. ground arith, λ h. ground arith)

xml_iff : (l : Xml.XmlLimits) → (Xml.validated l ≡ ok l) ↔ Xml.IsInRange l
unfolding Xml.validated check
xml_iff l = (λ h. ground arith, λ h. ground arith)

response_iff : (l : Response.ResponseLimits) → (Response.validated l ≡ ok l) ↔ Response.IsInRange l
unfolding Response.validated check
response_iff l = (λ h. ground arith, λ h. ground arith)

-- Checks only ever pass their argument on.
input_ok : (l : Input.InputLimits) {m : Input.InputLimits} → Input.validated l ≡ ok m → m ≡ l
unfolding Input.validated check
input_ok l h = ground arith

archive_ok :
    (l : Archive.ArchiveLimits) {m : Archive.ArchiveLimits} → Archive.validated l ≡ ok m → m ≡ l
unfolding Archive.validated check
archive_ok l h = ground arith

xml_ok : (l : Xml.XmlLimits) {m : Xml.XmlLimits} → Xml.validated l ≡ ok m → m ≡ l
unfolding Xml.validated check
xml_ok l h = ground arith

response_ok :
    (l : Response.ResponseLimits) {m : Response.ResponseLimits}
    → Response.validated l ≡ ok m
    → m ≡ l
unfolding Response.validated check
response_ok l h = ground arith

then_ok {ℓ κ} :
    {A : Type ℓ} {B : Type κ} (m : Checked A) (k : Checked B) {b : B}
    → (m >> k) ≡ ok b
    → ((a : A) × (m ≡ ok a)) × (k ≡ ok b)
then_ok (ok a) k h = ((a, refl), h)
then_ok (err e) k h = cc

resource_ok :
    (l : ResourceLimits)
    → Resource.validated l ≡ ok l
    → (Input.validated l.input ≡ ok l.input)
      × (Archive.validated l.archive ≡ ok l.archive)
      × (Xml.validated l.xml ≡ ok l.xml)
      × (Response.validated l.response ≡ ok l.response)
unfolding Resource.validated
resource_ok l h =
    let ((a, p), h₁) = then_ok (Input.validated l.input) _ h in
    let ((b, q), h₂) = then_ok (Archive.validated l.archive) _ h₁ in
    let ((c, r), h₃) = then_ok (Xml.validated l.xml) _ h₂ in
    let ((d, s), h₄) = then_ok (Response.validated l.response) _ h₃ in
    (
      rw (input_ok l.input p) at p,
      rw (archive_ok l.archive q) at q,
      rw (xml_ok l.xml r) at r,
      rw (response_ok l.response s) at s,
    )

-- `ResourceLimits::validated` accepts exactly the limits every one of whose fields lies in its range.
pub validated_iff : (l : ResourceLimits) → (Resource.validated l ≡ ok l) ↔ IsInRange l
unfolding Resource.validated
validated_iff l = (
  λ h.
      let (a, b, c, d) = resource_ok l h in
      record {
        input = (input_iff l.input).0 a;
        archive = (archive_iff l.archive).0 b;
        xml = (xml_iff l.xml).0 c;
        response = (response_iff l.response).0 d;
      },
  λ h.
      rw
        (
          (input_iff l.input).1 h.input,
          (archive_iff l.archive).1 h.archive,
          (xml_iff l.xml).1 h.xml,
          (response_iff l.response).1 h.response,
        )
        refl,
)

-- The value that an error carries lies outside the range that it carries.
abbrev IsOutOfRange : LimitOutOfRange → Type 0
IsOutOfRange e = (e.value < e.min) ⊎ (e.max < e.value)

input_err :
    (l : Input.InputLimits) {e : LimitOutOfRange} → Input.validated l ≡ err e → IsOutOfRange e
unfolding Input.validated check
input_err l h = ground arith

archive_err :
    (l : Archive.ArchiveLimits) {e : LimitOutOfRange} → Archive.validated l ≡ err e → IsOutOfRange e
unfolding Archive.validated check
archive_err l h = ground arith

xml_err : (l : Xml.XmlLimits) {e : LimitOutOfRange} → Xml.validated l ≡ err e → IsOutOfRange e
unfolding Xml.validated check
xml_err l h = ground arith

response_err :
    (l : Response.ResponseLimits) {e : LimitOutOfRange}
    → Response.validated l ≡ err e
    → IsOutOfRange e
unfolding Response.validated check
response_err l h = ground arith

-- A refusal by `ResourceLimits::validated` reports a value outside the range reported with it, and
-- some field of the limits is then out of its range.
pub validated-err :
    (l : ResourceLimits) {e : LimitOutOfRange}
    → Resource.validated l ≡ err e
    → ((e.value < e.min) ⊎ (e.max < e.value)) × ¬ IsInRange l
unfolding Resource.validated
validated-err l {e} h = (
  ground (
    arith,
    input_err l.input {e = e},
    archive_err l.archive {e = e},
    xml_err l.xml {e = e},
    response_err l.response {e = e},
  ),
  λ r. cc (h, (validated_iff l).1 r),
)

-- The shipped defaults pass their own validation.
pub defaults_valid : Resource.validated Resource.defaults ≡ ok Resource.defaults
unfolding Resource.validated Resource.defaults Input.validated Archive.validated Xml.validated
    Response.validated check Input.defaults Archive.defaults Xml.defaults Response.defaults
defaults_valid = refl

-- For any `u64` output size, `ratio_permits` holds exactly when the output is at most the ratio
-- times the input, also where that product does not fit a `u64`.
pub ratio_permits_iff :
    (l : ArchiveLimits) (input_bytes output_bytes : ℕ)
    → output_bytes ≤ u64_max
    → (Archive.ratio_permits l input_bytes output_bytes ≡ true)
      ↔ (output_bytes ≤ input_bytes * l.max_expansion_ratio)
unfolding Archive.ratio_permits
ratio_permits_iff l i o h = (λ p. ground arith, λ p. ground arith)
