-- ===== src/Tests/Limits.antt =====
-- Runs of crates/brolga-security/src/limits.rs.
use brolga.Prelude.{◌≡◌, refl, ◌↔◌}
use brolga.Security.Limits.{LimitOutOfRange, ok, err, check}
use brolga.Security.Limits.Input
use brolga.Security.Limits.Archive
use brolga.Security.Limits.Xml
use brolga.Security.Limits.Response
use brolga.Security.Limits.Resource
use brolga.Security.Limits.Resource.{ResourceLimits, IsInRange}
use brolga.Security.Limits.Validation.{validated_iff}

-- The defaults with an XML depth of 600, past the ceiling of 512.
abbrev too_deep : ResourceLimits
unfolding Resource.defaults Xml.defaults Input.defaults Archive.defaults Response.defaults
too_deep = record Resource.defaults { xml = record Xml.defaults { max_depth = 600 } }

abbrev refusal : LimitOutOfRange
refusal = record { name = "xml.max_depth"; value = 600; min = 1; max = 512 }

too_deep_refused : Resource.validated too_deep ≡ err refusal
unfolding Resource.validated Input.validated Archive.validated Xml.validated check Resource.defaults
    Xml.defaults Input.defaults Archive.defaults Response.defaults
too_deep_refused = refl

validated_iff_example :
    (Resource.validated Resource.defaults ≡ ok Resource.defaults) ↔ IsInRange Resource.defaults
validated_iff_example = validated_iff Resource.defaults
