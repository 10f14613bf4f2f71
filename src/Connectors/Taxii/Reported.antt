-- ===== src/Connectors/Taxii/Reported.antt =====
-- What the report of `sync_collection` says of the store and of the feed.
use brolga.Prelude.{
  ℕ, suc, ◌+◌, ◌≤◌, ◌<◌, ◌≡◌, refl, subst, inl, inr, ◌⊎◌, true, false, Option, none, some, Text,
  leb, ◌==◌, if◌then◌else◌, u64_max, saturating_add, Bool-cases, arith,
}
use brolga.Prelude.Results.{Result, ok, err, Result-cases, ok-injective}
use brolga.Connectors.Cursor.{ConnectorCursor, complete, partial, failed, not_modified}
use brolga.Connectors.Errors.{ConnectorError, storage, reported}
use brolga.Connectors.Sync.{
  SyncReport, Document, Ingested, Outcome, persist, finish, give_up, or_else, stored, covers,
  is_complete,
}
use brolga.Connectors.Sync.Rounds.{Returns, Leads, Returns-map}
use brolga.Connectors.Sync.Laws.{IsBackend, Own, put-Own, counted-eq, stored-ok}
use brolga.Connectors.Taxii.Begun.{begin-Returns}
use brolga.Connectors.Taxii.{
  Collection, Syncing, ObjectPage, taxii_connector, left, advanced, follow, advance, store_page,
  document_of, answer, round, sync_collection,
}

module _ {S : Type 0} (c : Collection S) (laws : IsBackend c.store)
    (few : c.options.max_pages ≤ u64_max) where
  -- At some call the server answered that nothing changed, or with a page that has no objects or
  -- that no more follow.
  abbrev pub EndSeen : Type 0
  EndSeen =
      (look : ℕ) × (p : Option Text) × (t : Option Text) × (etag : Option Text) × (page : Option
        ObjectPage)
      × (c.client.objects look c.feed.api_root c.feed.collection_id p t c.options.page_size etag
          ≡ ok page)
      × ((page ≡ none)
          ⊎ ((last : ObjectPage) × (page ≡ some last)
              × ((last.object_count ≡ 0) ⊎ (last.more ≡ false))))

  abbrev Mine : ConnectorCursor → Type 0
  Mine = Own c.store laws taxii_connector c.feed.collection_id

  abbrev Reported : Outcome S → Type 0
  Reported o =
      (report : SyncReport)
      → o.0 ≡ ok report
      → (c.store.connector_cursor taxii_connector c.feed.collection_id o.1
          ≡ ok (some report.cursor))
        × (report.pages ≤ c.options.max_pages)
        × (is_complete report ≡ true → EndSeen)

  error-Reported : (e : ConnectorError) (s : S) → Reported (err e, s)
  error-Reported e s report h = cc

  written-Reported :
      (cursor : ConnectorCursor) (report : SyncReport) (s : S) (u : Unit {0})
      → Mine cursor
      → report.pages ≤ c.options.max_pages
      → (covers cursor.last_status ≡ true → EndSeen)
      → (c.store.put_connector_cursor cursor s).0 ≡ ok u
      → Reported (ok (record report { cursor = cursor }), (c.store.put_connector_cursor cursor s).1)
  unfolding is_complete
  written-Reported cursor report s u mine within ended q r h =
      subst
        (λ (r : SyncReport).
          (c.store.connector_cursor taxii_connector c.feed.collection_id
              (c.store.put_connector_cursor cursor s).1
            ≡ ok (some r.cursor))
          × (r.pages ≤ c.options.max_pages)
          × (is_complete r ≡ true → EndSeen))
        (ok-injective h)
        (put-Own c.store laws taxii_connector c.feed.collection_id cursor s u mine q, within, ended)

  finish-Reported :
      (cursor : ConnectorCursor) (report : SyncReport) (s : S)
      → Mine cursor
      → report.pages ≤ c.options.max_pages
      → (covers cursor.last_status ≡ true → EndSeen)
      → Reported (finish c.store cursor report c.feed.api_root s)
  unfolding finish persist
  finish-Reported cursor report s mine within ended =
      elim (Result-cases (c.store.put_connector_cursor cursor s).0) [
        | inl (u, q) ↦ rw q (written-Reported cursor report s u mine within ended q)
        | inr (e, q) ↦ rw q (
            error-Reported (storage c.feed.api_root (reported e))
              (c.store.put_connector_cursor cursor s).1)
      ]

  abbrev Ready : ℕ → Syncing S → Type 0
  Ready n st =
      (c.options.max_pages < n + st.report.pages)
      × (st.report.pages ≤ c.options.max_pages)
      × Mine st.cursor

  -- A page that no more follow is what a complete run ends with.
  last-EndSeen :
      (page : ObjectPage)
      → ((page.more ≡ false) → EndSeen)
      → covers (if page.more then partial else complete) ≡ true
      → EndSeen
  last-EndSeen page seen h = elim (Bool-cases page.more) [ inl q ↦ cc (rw q at h) | inr q ↦ seen q ]

  advance-Ready :
      (n : ℕ) (page : ObjectPage) (st : Syncing S) (r : Result Text Ingested)
      → Ready n st
      → ((page.more ≡ false) → EndSeen)
      → Leads Reported (Ready n) (advance c page st r)
  unfolding give_up persist
  advance-Ready n page st (err e) ready seen =
      error-Reported (storage page.url (reported e))
        (c.store.put_connector_cursor (left c failed st.cursor) st.store_state).1
  advance-Ready n page st (ok counts) (fuel, within, mine) seen =
      let cursor = advanced c page st.cursor in
      let report = record (st.report) {
        inserted = saturating_add st.report.inserted counts.inserted;
        quarantined = saturating_add st.report.quarantined counts.rejected;
      } in
      let s = (c.store.put_connector_cursor cursor st.store_state).1 in
      elim (Result-cases (c.store.put_connector_cursor cursor st.store_state).0) [
        | inr (e, q) ↦ rw q (error-Reported (storage c.feed.api_root (reported e)) s)
        | inl (u, q) ↦ rw q (
            follow-Ready n page (record st { store_state = s; cursor = cursor; report = report }) u
              (fuel, within, mine)
              (written-Reported cursor report st.store_state u mine within (last-EndSeen page seen)
                q))
      ]
    where
      follow-Ready :
          (n : ℕ) (page : ObjectPage) (st : Syncing S) (u : Unit {0})
          → Ready n st
          → Reported (ok (record (st.report) { cursor = st.cursor }), st.store_state)
          → Leads Reported (Ready n) (follow c page st (ok u))
      follow-Ready n page st u ready written = elim (Bool-cases page.more) [
        | inl q ↦ rw q ready
        | inr q ↦ rw q written
      ]

  store_page-Ready :
      (n : ℕ) (page : ObjectPage) (st : Syncing S) (d : Result ConnectorError Document)
      → Ready n st
      → ((page.more ≡ false) → EndSeen)
      → Leads Reported (Ready n) (store_page c page st d)
  store_page-Ready n page st (err e) ready seen = error-Reported e st.store_state
  store_page-Ready n page st (ok d) ready seen =
      let (r, s) = c.store.ingest_batch d st.look st.store_state in
      advance-Ready n page (record st { store_state = s }) r ready seen

  answer-Ready :
      (n : ℕ) (st : Syncing S) (r : Result ConnectorError (Option ObjectPage))
      → c.options.max_pages < suc n + st.report.pages
      → st.report.pages < c.options.max_pages
      → Mine st.cursor
      → c.client.objects st.look c.feed.api_root c.feed.collection_id st.cursor.added_after st.next
          c.options.page_size st.etag
        ≡ r
      → Leads Reported (Ready n) (answer c st r)
  unfolding give_up persist
  answer-Ready n st (err e) fuel within mine got =
      error-Reported e (c.store.put_connector_cursor (left c failed st.cursor) st.store_state).1
  answer-Ready n st (ok none) fuel within mine got =
      finish-Reported (left c not_modified st.cursor) (record (st.report) { not_modified = true })
        st.store_state mine (omega arith)
        (λ h. (st.look, st.cursor.added_after, st.next, st.etag, none, got, inl refl))
  answer-Ready n st (ok (some page)) fuel within mine got =
      let e = counted-eq st.report.pages c.options.max_pages within few in
      let report = record (st.report) {
        pages = saturating_add st.report.pages 1;
        objects = saturating_add st.report.objects page.object_count;
      } in
      let seen : ((page.object_count ≡ 0) ⊎ (page.more ≡ false)) → EndSeen = λ last. (
        st.look,
        st.cursor.added_after,
        st.next,
        st.etag,
        some page,
        got,
        inr (page, refl, last),
      ) in
      elim (Bool-cases (page.object_count == 0)) [
        | inl q ↦ rw q (
            finish-Reported
              (record (left c complete st.cursor) {
                next_token = none;
                etag = or_else page.etag st.cursor.etag;
              })
              report st.store_state mine (omega (arith, e)) (λ h. seen (inl (ground (arith, q)))))
        | inr q ↦ rw q (
            store_page-Ready n page (record st { report = report }) (document_of c page)
              (omega (arith, e), omega (arith, e), mine) (λ more. seen (inr more)))
      ]

  round-Ready : (n : ℕ) (st : Syncing S) → Ready (suc n) st → Leads Reported (Ready n) (round c st)
  unfolding round
  round-Ready n st (fuel, within, mine) = elim (Bool-cases (c.is_cancelled st.look)) [
    | inl q ↦
        rw (round, q)
          (finish-Reported (left c partial st.cursor) st.report st.store_state mine within
            (λ h. cc))
    | inr q ↦ elim (Bool-cases (leb c.options.max_pages st.report.pages)) [
      | inl k ↦
          rw (round, q, k)
            (finish-Reported (record (left c partial st.cursor) { next_token = st.next }) st.report
              st.store_state mine within (λ h. cc))
      | inr k ↦
          rw (round, q, k)
            (answer-Ready n st
              (c.client.objects st.look c.feed.api_root c.feed.collection_id st.cursor.added_after
                st.next c.options.page_size st.etag)
              fuel (ground (arith, k)) mine refl)
    ]
  ]

  -- Nothing of an error; of a report, that its cursor is the stored one, that it counts no more
  -- pages than are allowed, and that it is not of a complete run unless an end was seen.
  abbrev pub Truthful : Outcome S → Type 0
  Truthful (err e, s) = Unit
  Truthful (ok report, s) =
      (c.store.connector_cursor taxii_connector c.feed.collection_id s ≡ ok (some report.cursor))
      × (report.pages ≤ c.options.max_pages)
      × ((is_complete report ≡ false) ⊎ EndSeen)

  Reported-Truthful : (o : Outcome S) → Reported o → Truthful o
  Reported-Truthful (err e, s) h = tt
  Reported-Truthful (ok report, s) h =
      let (same, within, ended) = h report refl in
      (
        same,
        within,
        elim (Bool-cases (is_complete report)) [ inl q ↦ inr (ended q) | inr q ↦ inl q ],
      )

  -- A run returns within its rounds. If it returns a report, the cursor of that is the one that is
  -- stored, it counts no more than `max_pages` pages, and it is complete only if the server once
  -- answered that nothing changed, or with a page that has no objects or that no more follow.
  pub sync_collection-Truthful : (s : S) → Returns Truthful (sync_collection c s)
  unfolding sync_collection
  sync_collection-Truthful s =
      let read = c.store.connector_cursor taxii_connector c.feed.collection_id in
      let found = stored c.feed.api_root (read s) in
      Returns-map Reported Truthful (sync_collection c s) Reported-Truthful (
        begin-Returns c Reported Ready (λ st r. absurd (omega (arith, r.0, r.1))) round-Ready s
          found (λ e. error-Reported e s) (omega arith, omega arith, (refl, refl))
          (λ d h. (
            omega arith,
            omega arith,
            laws.own taxii_connector c.feed.collection_id s d
                (stored-ok c.feed.api_root (read s) (some d) h),
          )))
