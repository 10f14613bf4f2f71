-- ===== src/Connectors/OpenCti.antt =====
-- crates/brolga-connectors/src/sync.rs, `sync_opencti`: a run over one OpenCTI instance, with what
-- it uses of src/opencti.rs. The client is a function as that of a TAXII collection is.
pub mod Reading
pub mod Returned
use brolga.Prelude.{
  ℕ, suc, ◌+◌, ◌++◌, Bool, true, false, ◌||◌, Option, none, some, Text, codes, text_eq, leb, ◌==◌,
  if◌then◌else◌, saturating_add,
}
use brolga.Prelude.Results.{Result, ok, err, ◌>>=◌}
use brolga.Model.Bounded.{short_text, media_type}
use brolga.Model.Temporal.{Timestamp}
use brolga.Connectors.Cursor.{ConnectorCursor, CursorStatus, complete, partial, failed, starting}
use brolga.Connectors.Errors.{ConnectorError, storage, reported}
use brolga.Connectors.Sync.{
  SyncOptions, SyncReport, Document, Ingested, Backend, stored, checked, unwrap_or, or_else,
  Outcome, blank_report, persist, finish, give_up,
}
use brolga.Connectors.Sync.Publisher.{bounded_publisher}
use brolga.Connectors.Sync.Rounds.{Round, done, again, rounds}

abbrev pub opencti_connector : Text
opencti_connector = codes "opencti"

pub record OpenCtiInstance : Type 0 where
  pub name : Text
  pub base_url : Text
  pub token : Text

abbrev pub feed_key : OpenCtiInstance → Text
feed_key i = i.name ++ codes "/stix"

pub record OpenCtiPage : Type 0 where
  pub body : Text
  pub url : Text
  pub object_count : ℕ
  pub unrenderable : ℕ
  pub newest_modified : Option Text
  pub end_cursor : Option Text
  pub more : Bool

-- `OpenCtiClient::page`
pub record OpenCtiClient : Type 0 where
  pub page :
      (look : ℕ)
      → OpenCtiInstance
      → (since after : Option Text) → (page_size : ℕ) → Result ConnectorError OpenCtiPage

-- The arguments of `sync_opencti`.
pub record Polling (S : Type 0) : Type 0 where
  pub client : OpenCtiClient
  pub store : Backend S
  pub source : OpenCtiInstance
  pub now : Timestamp
  pub to_rfc3339 : Timestamp → Text
  pub options : SyncOptions
  pub is_cancelled : ℕ → Bool

-- The variables of the loop, and how often the token has been looked at.
pub record Syncing (S : Type 0) : Type 0 where
  pub store_state : S
  pub cursor : ConnectorCursor
  pub report : SyncReport
  pub after : Option Text
  pub look : ℕ

-- `page.end_cursor.filter(|next| Some(next) != after.as_ref())`
unfoldable pub moved : Option Text → Option Text → Option Text
moved none after = none
moved (some next) none = some next
moved (some next) (some last) = if text_eq next last then none else some next

module _ {S : Type 0} (c : Polling S) where
  -- The cursor with how the run left it.
  abbrev pub left : CursorStatus → ConnectorCursor → ConnectorCursor
  left status cursor = record cursor { last_status = status; last_run_at = c.to_rfc3339 c.now }

  unfoldable pub document_of : OpenCtiPage → Result ConnectorError Document
  document_of page = checked page.url (media_type (codes "application/stix+json")) >>= λ m.
      checked page.url (short_text (bounded_publisher c.source.name)) >>= λ p.
      ok (record { bytes = page.body; media_type = m; publisher = p; retrieved_at = c.now })

  -- The cursor after the records of a page are stored.
  abbrev pub advanced : OpenCtiPage → ConnectorCursor → ConnectorCursor
  advanced page cursor = record cursor {
    added_after = or_else page.newest_modified cursor.added_after;
    records_seen = saturating_add cursor.records_seen page.object_count;
    last_run_at = c.to_rfc3339 c.now;
    last_status = if page.more then partial else complete;
  }

  -- Where the next page is, if the server moved.
  abbrev pub turn : Syncing S → Option Text → Round (Syncing S) (Outcome S)
  turn st none = done (
      finish c.store (record (st.cursor) { last_status = partial }) st.report c.source.base_url
        st.store_state)
  turn st (some next) = again (record st { after = some next; look = st.look + 1 })

  -- After `persist(…)`.
  abbrev pub follow :
      OpenCtiPage → Syncing S → Result ConnectorError (Unit {0}) → Round (Syncing S) (Outcome S)
  follow page st (err e) = done (err e, st.store_state)
  follow page st (ok u) =
      if page.more
      then turn st (moved page.end_cursor st.after)
      else done (ok (record (st.report) { cursor = st.cursor }), st.store_state)

  -- After `ingest_batch(…)`.
  abbrev pub advance :
      OpenCtiPage → Syncing S → Result Text Ingested → Round (Syncing S) (Outcome S)
  advance page st (err e) = done (
      give_up c.store (left failed st.cursor) (storage page.url (reported e)) c.source.base_url
        st.store_state)
  advance page st (ok counts) =
      let report = record (st.report) {
        inserted = saturating_add st.report.inserted counts.inserted;
        quarantined = saturating_add st.report.quarantined counts.rejected;
      } in
      let cursor = advanced page st.cursor in
      let (r, s) = persist c.store cursor c.source.base_url st.store_state in
      follow page (record st { store_state = s; cursor = cursor; report = report }) r

  abbrev pub store_page :
      OpenCtiPage → Syncing S → Result ConnectorError Document → Round (Syncing S) (Outcome S)
  store_page page st (err e) = done (err e, st.store_state)
  store_page page st (ok document) =
      let (r, s) = c.store.ingest_batch document st.look st.store_state in
      advance page (record st { store_state = s }) r

  -- A page with no objects ends the run.
  abbrev pub receive : OpenCtiPage → Syncing S → Round (Syncing S) (Outcome S)
  receive page st =
      if page.object_count == 0
      then done
          (finish c.store (left complete st.cursor) st.report c.source.base_url st.store_state)
      else store_page page st (document_of page)

  -- Objects that could not be rendered count as quarantined.
  abbrev pub counted : OpenCtiPage → SyncReport → SyncReport
  counted page report = record report {
    pages = saturating_add report.pages 1;
    objects = saturating_add report.objects page.object_count;
    quarantined = saturating_add report.quarantined page.unrenderable;
  }

  abbrev pub answer : Syncing S → Result ConnectorError OpenCtiPage → Round (Syncing S) (Outcome S)
  answer st (err e) =
      done (give_up c.store (left failed st.cursor) e c.source.base_url st.store_state)
  answer st (ok page) = receive page (record st { report = counted page st.report })

  -- One round of the loop.
  unfoldable pub round : Syncing S → Round (Syncing S) (Outcome S)
  unfolding document_of
  round st =
      if c.is_cancelled st.look || leb c.options.max_pages st.report.pages
      then done (finish c.store (left partial st.cursor) st.report c.source.base_url st.store_state)
      else answer st
          (c.client.page st.look c.source st.cursor.added_after st.after c.options.page_size)

  abbrev pub first_round : ConnectorCursor → S → Syncing S
  first_round cursor s = record {
    store_state = s;
    cursor = cursor;
    report = blank_report (feed_key c.source) cursor;
    after = none;
    look = 0;
  }

  -- The loop has as many rounds as pages may be read, and one more to stop.
  abbrev pub begin : Result ConnectorError (Option ConnectorCursor) → S → Option (Outcome S)
  begin (err e) s = some (err e, s)
  begin (ok found) s = rounds round (suc c.options.max_pages) (
      first_round
        (unwrap_or (starting opencti_connector (feed_key c.source) (c.to_rfc3339 c.now)) found) s)

  unfoldable pub sync_opencti : S → Option (Outcome S)
  unfolding round
  sync_opencti s =
      begin
        (stored c.source.base_url
          (c.store.connector_cursor opencti_connector (feed_key c.source) s))
        s
