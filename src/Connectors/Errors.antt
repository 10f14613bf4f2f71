-- ===== src/Connectors/Errors.antt =====
-- crates/brolga-connectors/src/error.rs. What a message says of a storage failure is kept as that
-- failure: the store's or the pipeline's own text, or the refusal of a value.
use brolga.Prelude.{ℕ, Bool, true, false, ◌||◌, leb, ◌==◌, Text}
use brolga.Model.Bounded.{ModelError}

pub data StorageReason : Type 0 where
  reported : (text : Text) → StorageReason
  refused : (refusal : ModelError) → StorageReason

pub data ConnectorError : Type 0 where
  denied malformed_url transport : (url reason : Text) → ConnectorError
  status : (url : Text) (code : ℕ) → ConnectorError
  response_too_large : (url : Text) (limit : ℕ) → ConnectorError
  malformed_response : (url reason : Text) → ConnectorError
  version_not_negotiated : (url detail : Text) → ConnectorError
  storage : (url : Text) (reason : StorageReason) → ConnectorError
  cancelled : ConnectorError

unfoldable pub is_retryable : ConnectorError → Bool
is_retryable (transport url reason) = true
is_retryable (status url code) = leb 500 code || code == 429
is_retryable (denied url reason) = false
is_retryable (malformed_url url reason) = false
is_retryable (response_too_large url limit) = false
is_retryable (malformed_response url reason) = false
is_retryable (version_not_negotiated url detail) = false
is_retryable (storage url reason) = false
is_retryable cancelled = false
