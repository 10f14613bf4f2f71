-- ===== src/Security/Limits/Response.antt =====
-- crates/brolga-security/src/limits.rs, `ResponseLimits`: what a fetched response may cost.
use brolga.Prelude.{ℕ, ◌*◌, ◌≤◌}
use brolga.Security.Limits.{Bounds, Checked, ok, ◌>>◌, check}

pub record ResponseLimits : Type 0 where
  pub max_body_bytes : ℕ
  pub max_redirects : ℕ
  pub timeout_seconds : ℕ

abbrev pub max_body_bounds : Bounds
max_body_bounds = record {
  name = "max_body_bytes";
  min = 1024;
  max = 8 * 1024 * 1024 * 1024;
  default = 256 * 1024 * 1024;
}

abbrev pub max_redirects_bounds : Bounds
max_redirects_bounds = record { name = "max_redirects"; min = 0; max = 10; default = 3 }

abbrev pub timeout_seconds_bounds : Bounds
timeout_seconds_bounds = record { name = "timeout_seconds"; min = 1; max = 3600; default = 60 }

unfoldable pub defaults : ResponseLimits
defaults = record {
  max_body_bytes = max_body_bounds.default;
  max_redirects = max_redirects_bounds.default;
  timeout_seconds = timeout_seconds_bounds.default;
}

unfoldable pub validated : ResponseLimits → Checked ResponseLimits
validated l = do
  check max_body_bounds l.max_body_bytes
  check max_redirects_bounds l.max_redirects
  check timeout_seconds_bounds l.timeout_seconds
  ok l

-- Every field lies in its range.
pub record IsInRange (l : ResponseLimits) : Type 0 where
  pub max_body_bytes_min : 1024 ≤ l.max_body_bytes
  pub max_body_bytes_max : l.max_body_bytes ≤ 8 * 1024 * 1024 * 1024
  pub max_redirects_min : 0 ≤ l.max_redirects
  pub max_redirects_max : l.max_redirects ≤ 10
  pub timeout_seconds_min : 1 ≤ l.timeout_seconds
  pub timeout_seconds_max : l.timeout_seconds ≤ 3600
