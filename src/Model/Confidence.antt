-- ===== src/Model/Confidence.antt =====
-- crates/brolga-model/src/confidence.rs: a confidence figure and what is behind it. A score that was
-- checked is the number itself; reading and writing by serde and the schemas are left out.
use brolga.Prelude.{ℕ, Bool, ◌||◌, Option, none, is_some, ltb, if◌then◌else◌}
use brolga.Prelude.Results.{Result, ok, err}

-- `ModelError::ConfidenceOutOfRange`
pub data ConfidenceOutOfRange : Type 0 where
  confidence_out_of_range : (found : ℕ) → ConfidenceOutOfRange

abbrev pub min_score : ℕ
min_score = 0

abbrev pub max_score : ℕ
max_score = 100

-- `ConfidenceScore::new`
unfoldable pub confidence_score : ℕ → Result ConfidenceOutOfRange ℕ
confidence_score value = if ltb 100 value then err (confidence_out_of_range value) else ok value

pub data ConfidenceMethod : Type 0 where
  source_asserted derived operator_asserted unknown : ConfidenceMethod

pub record ConfidenceBreakdown : Type 0 where
  pub overall : ℕ
  pub method : ConfidenceMethod
  pub source_reliability : Option ℕ
  pub information_credibility : Option ℕ
  pub corroboration : Option ℕ
  pub recency : Option ℕ

unfoldable pub unexplained : ℕ → ConfidenceBreakdown
unexplained overall = record {
  overall = overall;
  method = unknown;
  source_reliability = none;
  information_credibility = none;
  corroboration = none;
  recency = none;
}

-- `ConfidenceBreakdown::source_asserted`
unfoldable pub asserted_by_source : ℕ → ConfidenceBreakdown
unfolding unexplained
asserted_by_source overall = record (unexplained overall) { method = source_asserted }

unfoldable pub has_components : ConfidenceBreakdown → Bool
has_components b =
    is_some b.source_reliability
    || is_some b.information_credibility
    || is_some b.corroboration
    || is_some b.recency
