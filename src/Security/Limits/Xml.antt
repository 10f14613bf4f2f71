-- ===== src/Security/Limits/Xml.antt =====
-- crates/brolga-security/src/limits.rs, `XmlLimits`: what an XML document may hold.
use brolga.Prelude.{ℕ, ◌*◌, ◌≤◌, Bool, false}
use brolga.Security.Limits.{Bounds, Checked, ok, ◌>>◌, check}

pub record XmlLimits : Type 0 where
  pub allow_external_entities : Bool
  pub allow_entity_expansion : Bool
  pub max_depth : ℕ
  pub max_elements : ℕ
  pub max_attribute_bytes : ℕ

abbrev pub max_depth_bounds : Bounds
max_depth_bounds = record { name = "xml.max_depth"; min = 1; max = 512; default = 64 }

abbrev pub max_elements_bounds : Bounds
max_elements_bounds = record {
  name = "xml.max_elements";
  min = 1;
  max = 10_000_000;
  default = 500_000;
}

abbrev pub max_attribute_bytes_bounds : Bounds
max_attribute_bytes_bounds = record {
  name = "xml.max_attribute_bytes";
  min = 64;
  max = 1024 * 1024;
  default = 65_536;
}

unfoldable pub defaults : XmlLimits
defaults = record {
  allow_external_entities = false;
  allow_entity_expansion = false;
  max_depth = max_depth_bounds.default;
  max_elements = max_elements_bounds.default;
  max_attribute_bytes = max_attribute_bytes_bounds.default;
}

unfoldable pub validated : XmlLimits → Checked XmlLimits
validated l = do
  check max_depth_bounds l.max_depth
  check max_elements_bounds l.max_elements
  check max_attribute_bytes_bounds l.max_attribute_bytes
  ok l

-- Every field lies in its range.
pub record IsInRange (l : XmlLimits) : Type 0 where
  pub max_depth_min : 1 ≤ l.max_depth
  pub max_depth_max : l.max_depth ≤ 512
  pub max_elements_min : 1 ≤ l.max_elements
  pub max_elements_max : l.max_elements ≤ 10_000_000
  pub max_attribute_bytes_min : 64 ≤ l.max_attribute_bytes
  pub max_attribute_bytes_max : l.max_attribute_bytes ≤ 1024 * 1024
