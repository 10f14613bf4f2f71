-- ===== src/Connectors/Sync.antt =====
-- crates/brolga-connectors/src/sync.rs: what the runs of all connectors share.
-- A `Backend` is what they call of the store and of the pipeline that writes to it, over a state
-- that comes back beside each result, so that it is there after a failure too. The pipeline looks
-- at the cancellation token at its own times, so it is told which look of the run precedes it.
pub mod Publisher
pub mod Rounds
pub mod Laws
use brolga.Prelude.{ℕ, Bool, true, false, ◌||◌, Option, none, some, Text, codes, if◌then◌else◌}
use brolga.Prelude.Results.{Result, ok, err, ◌>>=◌}
use brolga.Model.Bounded.{ModelError}
use brolga.Model.Temporal.{Timestamp}
use brolga.Connectors.Cursor.{
  ConnectorCursor, CursorStatus, complete, partial, failed, not_modified,
}
use brolga.Connectors.Errors.{ConnectorError, StorageReason, reported, refused, storage}

pub record SyncOptions : Type 0 where
  pub page_size : ℕ
  pub max_pages : ℕ
  pub use_etag : Bool

abbrev pub with_max_pages : ℕ → SyncOptions → SyncOptions
with_max_pages max_pages o = record o { max_pages = max_pages }

abbrev pub with_page_size : ℕ → SyncOptions → SyncOptions
with_page_size page_size o = record o { page_size = page_size }

abbrev pub with_etag : Bool → SyncOptions → SyncOptions
with_etag use_etag o = record o { use_etag = use_etag }

abbrev pub default_options : SyncOptions
default_options = record { page_size = 100; max_pages = 1000; use_etag = true }

pub record SyncReport : Type 0 where
  pub feed : Text
  pub pages : ℕ
  pub objects : ℕ
  pub inserted : ℕ
  pub quarantined : ℕ
  pub cursor : ConnectorCursor
  pub not_modified : Bool

abbrev pub covers : CursorStatus → Bool
covers complete = true
covers partial = false
covers failed = false
covers not_modified = true

unfoldable pub is_complete : SyncReport → Bool
is_complete r = covers r.cursor.last_status

-- What a run has done before it has done anything.
abbrev pub blank_report : Text → ConnectorCursor → SyncReport
blank_report feed cursor = record {
  feed = feed;
  pages = 0;
  objects = 0;
  inserted = 0;
  quarantined = 0;
  cursor = cursor;
  not_modified = false;
}

pub record FeedRef : Type 0 where
  pub api_root : Text
  pub collection_id : Text

-- `Document`, with the publisher of its `SourceOrigin::NetworkFeed`.
pub record Document : Type 0 where
  pub bytes : Text
  pub media_type : Text
  pub publisher : Text
  pub retrieved_at : Timestamp

pub record Ingested : Type 0 where
  pub inserted : ℕ
  pub rejected : ℕ

pub record Backend (S : Type 0) : Type 0 where
  pub connector_cursor : Text → Text → S → Result Text (Option ConnectorCursor)
  pub put_connector_cursor : ConnectorCursor → S → Result Text (Unit {0}) × S
  pub ingest_batch : Document → ℕ → S → Result Text Ingested × S

-- `map_err`, to what a connector reports of the store.
abbrev pub stored : {A : Type 0} → Text → Result Text A → Result ConnectorError A
stored url (ok a) = ok a
stored url (err e) = err (storage url (reported e))

abbrev pub checked : {A : Type 0} → Text → Result ModelError A → Result ConnectorError A
checked url (ok a) = ok a
checked url (err e) = err (storage url (refused e))

abbrev pub unwrap_or : {A : Type 0} → A → Option A → A
unwrap_or a none = a
unwrap_or a (some b) = b

abbrev pub or_else : {A : Type 0} → Option A → Option A → Option A
or_else none o = o
or_else (some a) o = some a

abbrev pub Outcome : Type 0 → Type 0
Outcome S = Result ConnectorError SyncReport × S

module _ {S : Type 0} (store : Backend S) where
  unfoldable pub persist : ConnectorCursor → Text → S → Result ConnectorError (Unit {0}) × S
  persist cursor url s = let (r, s') = store.put_connector_cursor cursor s in (stored url r, s')

  -- `persist(…)?; report.cursor = cursor; return Ok(report)`
  unfoldable pub finish : ConnectorCursor → SyncReport → Text → S → Outcome S
  unfolding persist
  finish cursor report url s =
      let (r, s') = persist cursor url s in (r >>= λ u. ok (record report { cursor = cursor }), s')

  -- `let _ = persist(…); return Err(error)`
  unfoldable pub give_up : ConnectorCursor → ConnectorError → Text → S → Outcome S
  unfolding persist
  give_up cursor error url s = (err error, (persist cursor url s).1)
