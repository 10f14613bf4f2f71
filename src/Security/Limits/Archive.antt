-- ===== src/Security/Limits/Archive.antt =====
-- crates/brolga-security/src/limits.rs, `ArchiveLimits`: what an archive may expand to.
use brolga.Prelude.{ℕ, ◌*◌, ◌≤◌, some, none, leb, ◌==◌, if◌then◌else◌, checked_mul, Bool, true}
use brolga.Security.Limits.{Bounds, Checked, ok, ◌>>◌, check}

pub record ArchiveLimits : Type 0 where
  pub max_total_output_bytes : ℕ
  pub max_entry_bytes : ℕ
  pub max_entries : ℕ
  pub max_expansion_ratio : ℕ
  pub max_nesting : ℕ

abbrev pub max_total_output_bounds : Bounds
max_total_output_bounds = record {
  name = "max_total_output_bytes";
  min = 1024;
  max = 64 * 1024 * 1024 * 1024;
  default = 1024 * 1024 * 1024;
}

abbrev pub max_entry_bounds : Bounds
max_entry_bounds = record {
  name = "max_entry_bytes";
  min = 1024;
  max = 8 * 1024 * 1024 * 1024;
  default = 256 * 1024 * 1024;
}

abbrev pub max_entries_bounds : Bounds
max_entries_bounds = record { name = "max_entries"; min = 1; max = 1_000_000; default = 10_000 }

abbrev pub max_ratio_bounds : Bounds
max_ratio_bounds = record { name = "max_expansion_ratio"; min = 2; max = 10_000; default = 100 }

abbrev pub max_nesting_bounds : Bounds
max_nesting_bounds = record { name = "max_nesting"; min = 0; max = 8; default = 1 }

unfoldable pub defaults : ArchiveLimits
defaults = record {
  max_total_output_bytes = max_total_output_bounds.default;
  max_entry_bytes = max_entry_bounds.default;
  max_entries = max_entries_bounds.default;
  max_expansion_ratio = max_ratio_bounds.default;
  max_nesting = max_nesting_bounds.default;
}

unfoldable pub validated : ArchiveLimits → Checked ArchiveLimits
validated l = do
  check max_total_output_bounds l.max_total_output_bytes
  check max_entry_bounds l.max_entry_bytes
  check max_entries_bounds l.max_entries
  check max_ratio_bounds l.max_expansion_ratio
  check max_nesting_bounds l.max_nesting
  ok l

-- Every field lies in its range.
pub record IsInRange (l : ArchiveLimits) : Type 0 where
  pub max_total_output_bytes_min : 1024 ≤ l.max_total_output_bytes
  pub max_total_output_bytes_max : l.max_total_output_bytes ≤ 64 * 1024 * 1024 * 1024
  pub max_entry_bytes_min : 1024 ≤ l.max_entry_bytes
  pub max_entry_bytes_max : l.max_entry_bytes ≤ 8 * 1024 * 1024 * 1024
  pub max_entries_min : 1 ≤ l.max_entries
  pub max_entries_max : l.max_entries ≤ 1_000_000
  pub max_expansion_ratio_min : 2 ≤ l.max_expansion_ratio
  pub max_expansion_ratio_max : l.max_expansion_ratio ≤ 10_000
  pub max_nesting_min : 0 ≤ l.max_nesting
  pub max_nesting_max : l.max_nesting ≤ 8

-- `input_bytes.checked_mul(ratio)`: an overflow means that any `u64` of output is within the ratio.
unfoldable pub ratio_permits : ArchiveLimits → ℕ → ℕ → Bool
ratio_permits l input_bytes output_bytes =
    if input_bytes == 0
    then output_bytes == 0
    else elim (checked_mul input_bytes l.max_expansion_ratio) [
      | some allowed ↦ leb output_bytes allowed
      | none ↦ true
    ]
