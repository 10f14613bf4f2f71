-- ===== src/Connectors/Taxii.antt =====
-- crates/brolga-connectors/src/sync.rs, `sync_collection`: a run over one TAXII collection.
-- The client, whose answers are those of a server, is a function that is told which look of the run
-- precedes its call, as the cancellation token is. `Timestamp::to_rfc3339` is the time library's.
pub mod Begun
pub mod Returned
pub mod Reading
pub mod Finishes
pub mod Reported
use brolga.Prelude.{
  ℕ, suc, ◌+◌, Bool, true, false, ◌||◌, Option, none, some, Text, codes, leb, ◌==◌, if◌then◌else◌,
  saturating_add,
}
use brolga.Prelude.Results.{Result, ok, err, ◌>>=◌}
use brolga.Model.Bounded.{short_text, media_type}
use brolga.Model.Temporal.{Timestamp}
use brolga.Connectors.Cursor.{
  ConnectorCursor, CursorStatus, complete, partial, failed, not_modified, starting,
}
use brolga.Connectors.Errors.{ConnectorError, storage, reported}
use brolga.Connectors.Sync.{
  SyncOptions, SyncReport, FeedRef, Document, Ingested, Backend, stored, checked, unwrap_or,
  or_else, Outcome, blank_report, persist, finish, give_up,
}
use brolga.Connectors.Sync.Publisher.{bounded_publisher}
use brolga.Connectors.Sync.Rounds.{Round, done, again, rounds}

abbrev pub taxii_connector : Text
taxii_connector = codes "taxii"

pub record ObjectPage : Type 0 where
  pub body : Text
  pub url : Text
  pub newest_added : Option Text
  pub next : Option Text
  pub more : Bool
  pub object_count : ℕ
  pub etag : Option Text

-- `TaxiiClient::objects`: the position asked from is `added_after` and `next`.
pub record TaxiiClient : Type 0 where
  pub objects :
      (look : ℕ)
      → (api_root collection_id : Text) → (added_after next : Option Text) → (page_size : ℕ)
      → (etag : Option Text) → Result ConnectorError (Option ObjectPage)

-- The arguments of `sync_collection`.
pub record Collection (S : Type 0) : Type 0 where
  pub client : TaxiiClient
  pub store : Backend S
  pub feed : FeedRef
  pub now : Timestamp
  pub to_rfc3339 : Timestamp → Text
  pub options : SyncOptions
  pub is_cancelled : ℕ → Bool

-- The variables of the loop, and how often the token has been looked at.
pub record Syncing (S : Type 0) : Type 0 where
  pub store_state : S
  pub cursor : ConnectorCursor
  pub report : SyncReport
  pub next : Option Text
  pub etag : Option Text
  pub look : ℕ

module _ {S : Type 0} (c : Collection S) where
  -- The cursor with how the run left it.
  abbrev pub left : CursorStatus → ConnectorCursor → ConnectorCursor
  left status cursor = record cursor { last_status = status; last_run_at = c.to_rfc3339 c.now }

  unfoldable pub document_of : ObjectPage → Result ConnectorError Document
  document_of page = checked page.url (media_type (codes "application/stix+json")) >>= λ m.
      checked page.url (short_text (bounded_publisher c.feed.api_root)) >>= λ p.
      ok (record { bytes = page.body; media_type = m; publisher = p; retrieved_at = c.now })

  -- The cursor after the records of a page are stored.
  abbrev pub advanced : ObjectPage → ConnectorCursor → ConnectorCursor
  advanced page cursor = record cursor {
    added_after = or_else page.newest_added cursor.added_after;
    etag = or_else page.etag cursor.etag;
    records_seen = saturating_add cursor.records_seen page.object_count;
    last_run_at = c.to_rfc3339 c.now;
    last_status = if page.more then partial else complete;
    next_token = if page.more then page.next else none;
  }

  -- After `persist(…)`.
  abbrev pub follow :
      ObjectPage → Syncing S → Result ConnectorError (Unit {0}) → Round (Syncing S) (Outcome S)
  follow page st (err e) = done (err e, st.store_state)
  follow page st (ok u) =
      if page.more
      then again (record st { next = page.next; etag = none; look = st.look + 1 })
      else done (ok (record (st.report) { cursor = st.cursor }), st.store_state)

  -- After `ingest_batch(…)`.
  abbrev pub advance : ObjectPage → Syncing S → Result Text Ingested → Round (Syncing S) (Outcome S)
  advance page st (err e) = done (
      give_up c.store (left failed st.cursor) (storage page.url (reported e)) c.feed.api_root
        st.store_state)
  advance page st (ok counts) =
      let report = record (st.report) {
        inserted = saturating_add st.report.inserted counts.inserted;
        quarantined = saturating_add st.report.quarantined counts.rejected;
      } in
      let cursor = advanced page st.cursor in
      let (r, s) = persist c.store cursor c.feed.api_root st.store_state in
      follow page (record st { store_state = s; cursor = cursor; report = report }) r

  abbrev pub store_page :
      ObjectPage → Syncing S → Result ConnectorError Document → Round (Syncing S) (Outcome S)
  store_page page st (err e) = done (err e, st.store_state)
  store_page page st (ok document) =
      let (r, s) = c.store.ingest_batch document st.look st.store_state in
      advance page (record st { store_state = s }) r

  -- A page with no objects ends the run.
  abbrev pub ended : ObjectPage → Syncing S → Outcome S
  ended page st =
      finish c.store
        (record (left complete st.cursor) {
          next_token = none;
          etag = or_else page.etag st.cursor.etag;
        })
        st.report c.feed.api_root st.store_state

  abbrev pub receive : ObjectPage → Syncing S → Round (Syncing S) (Outcome S)
  receive page st =
      if page.object_count == 0 then done (ended page st) else store_page page st (document_of page)

  abbrev pub answer :
      Syncing S → Result ConnectorError (Option ObjectPage) → Round (Syncing S) (Outcome S)
  answer st (err e) =
      done (give_up c.store (left failed st.cursor) e c.feed.api_root st.store_state)
  answer st (ok none) = done (
      finish c.store (left not_modified st.cursor) (record (st.report) { not_modified = true })
        c.feed.api_root st.store_state)
  answer st (ok (some page)) = receive page (record st {
    report = record (st.report) {
      pages = saturating_add st.report.pages 1;
      objects = saturating_add st.report.objects page.object_count;
    };
  })

  -- One round of the loop.
  unfoldable pub round : Syncing S → Round (Syncing S) (Outcome S)
  unfolding document_of
  round st =
      if c.is_cancelled st.look
      then done (finish c.store (left partial st.cursor) st.report c.feed.api_root st.store_state)
      else if leb c.options.max_pages st.report.pages
      then done (
          finish c.store (record (left partial st.cursor) { next_token = st.next }) st.report
            c.feed.api_root st.store_state)
      else answer st (
          c.client.objects st.look c.feed.api_root c.feed.collection_id st.cursor.added_after
            st.next c.options.page_size st.etag)

  abbrev pub first_round : ConnectorCursor → S → Syncing S
  first_round cursor s = record {
    store_state = s;
    cursor = cursor;
    report = blank_report c.feed.collection_id cursor;
    next = cursor.next_token;
    etag = if c.options.use_etag then cursor.etag else none;
    look = 0;
  }

  -- The loop has as many rounds as pages may be read, and one more to stop.
  abbrev pub begin : Result ConnectorError (Option ConnectorCursor) → S → Option (Outcome S)
  begin (err e) s = some (err e, s)
  begin (ok found) s = rounds round (suc c.options.max_pages) (
      first_round
        (unwrap_or (starting taxii_connector c.feed.collection_id (c.to_rfc3339 c.now)) found) s)

  unfoldable pub sync_collection : S → Option (Outcome S)
  unfolding round
  sync_collection s =
      begin
        (stored c.feed.api_root (c.store.connector_cursor taxii_connector c.feed.collection_id s)) s
