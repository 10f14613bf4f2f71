-- ===== src/Security/Limits/Input.antt =====
-- crates/brolga-security/src/limits.rs, `InputLimits`: what one input may cost to parse.
use brolga.Prelude.{ℕ, ◌*◌, ◌≤◌}
use brolga.Security.Limits.{Bounds, Checked, ok, ◌>>◌, check}

pub record InputLimits : Type 0 where
  pub max_bytes : ℕ
  pub max_depth : ℕ
  pub max_records : ℕ
  pub max_field_bytes : ℕ

abbrev pub max_bytes_bounds : Bounds
max_bytes_bounds = record {
  name = "max_bytes";
  min = 1024;
  max = 1024 * 1024 * 1024;
  default = 64 * 1024 * 1024;
}

abbrev pub max_depth_bounds : Bounds
max_depth_bounds = record { name = "max_depth"; min = 1; max = 1024; default = 64 }

abbrev pub max_records_bounds : Bounds
max_records_bounds = record {
  name = "max_records";
  min = 1;
  max = 100_000_000;
  default = 1_000_000;
}

abbrev pub max_field_bytes_bounds : Bounds
max_field_bytes_bounds = record {
  name = "max_field_bytes";
  min = 64;
  max = 16 * 1024 * 1024;
  default = 65_536;
}

unfoldable pub defaults : InputLimits
defaults = record {
  max_bytes = max_bytes_bounds.default;
  max_depth = max_depth_bounds.default;
  max_records = max_records_bounds.default;
  max_field_bytes = max_field_bytes_bounds.default;
}

unfoldable pub validated : InputLimits → Checked InputLimits
validated l = do
  check max_bytes_bounds l.max_bytes
  check max_depth_bounds l.max_depth
  check max_records_bounds l.max_records
  check max_field_bytes_bounds l.max_field_bytes
  ok l

-- Every field lies in its range.
pub record IsInRange (l : InputLimits) : Type 0 where
  pub max_bytes_min : 1024 ≤ l.max_bytes
  pub max_bytes_max : l.max_bytes ≤ 1024 * 1024 * 1024
  pub max_depth_min : 1 ≤ l.max_depth
  pub max_depth_max : l.max_depth ≤ 1024
  pub max_records_min : 1 ≤ l.max_records
  pub max_records_max : l.max_records ≤ 100_000_000
  pub max_field_bytes_min : 64 ≤ l.max_field_bytes
  pub max_field_bytes_max : l.max_field_bytes ≤ 16 * 1024 * 1024
