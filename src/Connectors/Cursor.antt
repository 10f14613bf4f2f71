-- ===== src/Connectors/Cursor.antt =====
-- crates/brolga-storage/src/cursor.rs: how far a connector has read a feed.
use brolga.Prelude.{
  ℕ, ◌≡◌, refl, Bool, ◌&&◌, Option, none, some, Text, codes, text_eq, text_eq_iff, is_some, not,
  if◌then◌else◌, ◌↔◌, arith,
}

pub data CursorStatus : Type 0 where
  complete partial failed not_modified : CursorStatus

unfoldable pub as_str : CursorStatus → Text
as_str complete = codes "complete"
as_str partial = codes "partial"
as_str failed = codes "failed"
as_str not_modified = codes "not_modified"

unfoldable pub parse : Text → Option CursorStatus
parse value =
    if text_eq value (codes "complete")
    then some complete
    else if text_eq value (codes "partial")
    then some partial
    else if text_eq value (codes "failed")
    then some failed
    else if text_eq value (codes "not_modified")
    then some not_modified
    else none

-- `added_after` is text, as the server wrote it.
pub record ConnectorCursor : Type 0 where
  pub connector : Text
  pub feed : Text
  pub added_after : Option Text
  pub etag : Option Text
  pub next_token : Option Text
  pub last_run_at : Text
  pub last_status : CursorStatus
  pub records_seen : ℕ

abbrev pub starting : Text → Text → Text → ConnectorCursor
starting connector feed now = record {
  connector = connector;
  feed = feed;
  added_after = none;
  etag = none;
  next_token = none;
  last_run_at = now;
  last_status = complete;
  records_seen = 0;
}

unfoldable pub is_initial : ConnectorCursor → Bool
is_initial c = not (is_some c.added_after) && not (is_some c.next_token)

parse-name : (s : CursorStatus) → parse (as_str s) ≡ some s
unfolding parse as_str text_eq
parse-name complete = refl
parse-name partial = refl
parse-name failed = refl
parse-name not_modified = refl

-- A word is read as a status exactly when it is that status's name.
pub parse-as_str : (value : Text) (s : CursorStatus) → (parse value ≡ some s) ↔ (value ≡ as_str s)
unfolding parse as_str
parse-as_str value s = (to s, λ e. rw (e, parse-name s) refl)
  where
    to : (s : CursorStatus) → parse value ≡ some s → value ≡ as_str s
    to complete h = ground (
      arith,
      text_eq_iff value (codes "complete"),
      text_eq_iff value (codes "partial"),
      text_eq_iff value (codes "failed"),
      text_eq_iff value (codes "not_modified"),
    )
    to partial h = ground (
      arith,
      text_eq_iff value (codes "complete"),
      text_eq_iff value (codes "partial"),
      text_eq_iff value (codes "failed"),
      text_eq_iff value (codes "not_modified"),
    )
    to failed h = ground (
      arith,
      text_eq_iff value (codes "complete"),
      text_eq_iff value (codes "partial"),
      text_eq_iff value (codes "failed"),
      text_eq_iff value (codes "not_modified"),
    )
    to not_modified h = ground (
      arith,
      text_eq_iff value (codes "complete"),
      text_eq_iff value (codes "partial"),
      text_eq_iff value (codes "failed"),
      text_eq_iff value (codes "not_modified"),
    )
