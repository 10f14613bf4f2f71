-- ===== src/Connectors/OpenCti/Returned.antt =====
-- What `sync_opencti` leaves in the store, whichever way it returns.
use brolga.Prelude.{
  ℕ, zero, suc, ◌+◌, ◌≤◌, ◌<◌, ◌≡◌, refl, subst, inl, inr, ◌||◌, Option, none, some, Text, leb,
  ◌==◌, u64_max, saturating_add, Bool-cases, arith,
}
use brolga.Prelude.Results.{Result, ok, err}
use brolga.Connectors.Cursor.{ConnectorCursor, complete, partial, failed, starting}
use brolga.Connectors.Errors.{ConnectorError}
use brolga.Connectors.Sync.{Document, Ingested, Outcome, persist, finish, give_up, or_else, stored}
use brolga.Connectors.Sync.Rounds.{rounds, Returns, Leads, rounds-Returns, Returns-map}
use brolga.Connectors.Sync.Laws.{
  IsBackend, Own, Stored, put-Stored, ingest-Stored, Read, Read-all, Read-at, stored-ok, counted-eq,
}
use brolga.Connectors.OpenCti.Reading.{document_of-bytes, moved-some}
use brolga.Connectors.OpenCti.{
  Polling, Syncing, OpenCtiPage, opencti_connector, feed_key, moved, left, advanced, turn, follow,
  advance, store_page, document_of, counted, answer, round, first_round, begin, sync_opencti,
}

module _ {S : Type 0} (c : Polling S) (laws : IsBackend c.store)
    (few : c.options.max_pages ≤ u64_max) (Covered : (since after : Option Text) → S → Type 0)
    (put_keeps : (p t : Option Text) (d : ConnectorCursor) (s : S)
      → Covered p t s
      → Covered p t (c.store.put_connector_cursor d s).1)
    (ingest_keeps : (p t : Option Text) (d : Document) (n : ℕ) (s : S)
      → Covered p t s
      → Covered p t (c.store.ingest_batch d n s).1)
    (restarts : (p t : Option Text) (s : S) → Covered p t s → Covered p none s)
    (page_covers : (look : ℕ) (p t : Option Text) (page : OpenCtiPage) (d : Document) (s : S)
        (counts : Ingested)
      → c.client.page look c.source p t c.options.page_size ≡ ok page
      → d.bytes ≡ page.body
      → (c.store.ingest_batch d look s).0 ≡ ok counts
      → Covered p t s
      → Covered
          (or_else page.newest_modified p)
          page.end_cursor
          (c.store.ingest_batch d look s).1) where
  -- The page cursor of a run is not stored.
  abbrev Position : ConnectorCursor → S → Type 0
  Position d s = Covered d.added_after none s

  abbrev Safe : S → Type 0
  Safe = Stored c.store laws opencti_connector (feed_key c.source) Position

  abbrev Mine : ConnectorCursor → Type 0
  Mine = Own c.store laws opencti_connector (feed_key c.source)

  abbrev Kept : Outcome S → Type 0
  Kept o = Safe o.1

  put-Safe :
      (d : ConnectorCursor) (s : S)
      → Mine d
      → Position d s
      → Safe s
      → Safe (c.store.put_connector_cursor d s).1
  put-Safe =
      put-Stored c.store laws opencti_connector (feed_key c.source) Position
        (λ d e s h. put_keeps d.added_after none e s h)
        (λ d e n s h. ingest_keeps d.added_after none e n s h)

  abbrev Held : Syncing S → Type 0
  Held st =
      Mine st.cursor × Covered st.cursor.added_after st.after st.store_state × Safe st.store_state

  -- A cursor is stored with what the run came to.
  left-Safe :
      (d : ConnectorCursor) (t : Option Text) (s : S)
      → Mine d
      → Covered d.added_after t s
      → Safe s
      → Safe (c.store.put_connector_cursor d s).1
  left-Safe d t s mine position = put-Safe d s mine (restarts d.added_after t s position)

  -- What holds before a round that `n` more may follow.
  Ready : ℕ → Syncing S → Type 0
  Ready n st =
      (c.options.max_pages < n + st.report.pages)
      × (st.report.pages ≤ c.options.max_pages)
      × Held st

  abbrev Counted : ℕ → ℕ → Type 0
  Counted n pages = (c.options.max_pages < n + pages) × (pages ≤ c.options.max_pages)

  follow-Ready :
      (n : ℕ) (page : OpenCtiPage) (st : Syncing S) (r : Result ConnectorError (Unit {0}))
      → Counted n st.report.pages
      → Held (record st { after = page.end_cursor })
      → Leads Kept (Ready n) (follow c page st r)
  unfolding Ready finish persist
  follow-Ready n page st (err e) pages (mine, position, safe) = safe
  follow-Ready n page st (ok u) (fuel, within) (mine, position, safe) =
      elim (Bool-cases page.more) [
        | inl q ↦ rw q (turn-Ready (moved page.end_cursor st.after) refl)
        | inr q ↦ rw q safe
      ]
    where
      turn-Ready :
          (next : Option Text)
          → moved page.end_cursor st.after ≡ next
          → Leads Kept (Ready n) (turn c st next)
      turn-Ready none h =
          left-Safe (record (st.cursor) { last_status = partial }) page.end_cursor st.store_state
            mine position safe
      turn-Ready (some next) h =
          let e = moved-some page.end_cursor st.after next h in
          (
            fuel,
            within,
            (mine, subst (λ t. Covered st.cursor.added_after t st.store_state) e position, safe),
          )

  advance-Ready :
      (n : ℕ) (page : OpenCtiPage) (st : Syncing S) (r : Result Text Ingested)
      → Ready n st
      → ((counts : Ingested)
          → r ≡ ok counts
          → Covered (advanced c page st.cursor).added_after page.end_cursor st.store_state)
      → Leads Kept (Ready n) (advance c page st r)
  unfolding Ready persist give_up
  advance-Ready n page st (err e) (fuel, within, (mine, position, safe)) covers =
      left-Safe (left c failed st.cursor) st.after st.store_state mine position safe
  advance-Ready n page st (ok counts) (fuel, within, (mine, position, safe)) covers =
      let cursor = advanced c page st.cursor in
      let report = record (st.report) {
        inserted = saturating_add st.report.inserted counts.inserted;
        quarantined = saturating_add st.report.quarantined counts.rejected;
      } in
      let (r, s) = persist c.store cursor c.source.base_url st.store_state in
      let reached = covers counts refl in
      follow-Ready n page (record st { store_state = s; cursor = cursor; report = report }) r
        (fuel, within)
        (
          mine,
          put_keeps cursor.added_after page.end_cursor cursor st.store_state reached,
          left-Safe cursor page.end_cursor st.store_state mine reached safe,
        )

  store_page-Ready :
      (n : ℕ) (page : OpenCtiPage) (st : Syncing S) (d : Result ConnectorError Document)
      → Ready n st
      → c.client.page st.look c.source st.cursor.added_after st.after c.options.page_size ≡ ok page
      → ((document : Document) → d ≡ ok document → document.bytes ≡ page.body)
      → Leads Kept (Ready n) (store_page c page st d)
  unfolding Ready
  store_page-Ready n page st (err e) (fuel, within, (mine, position, safe)) got bytes = safe
  store_page-Ready n page st (ok d) (fuel, within, (mine, position, safe)) got bytes =
      let (r, s) = c.store.ingest_batch d st.look st.store_state in
      advance-Ready n page (record st { store_state = s }) r
        (
          fuel,
          within,
          (
            mine,
            ingest_keeps st.cursor.added_after st.after d st.look st.store_state position,
            ingest-Stored c.store laws opencti_connector (feed_key c.source) Position
                (λ d e s h. put_keeps d.added_after none e s h)
                (λ d e n s h. ingest_keeps d.added_after none e n s h) d st.look st.store_state
                safe,
          ),
        )
        (λ counts q.
          page_covers st.look st.cursor.added_after st.after page d st.store_state counts got
            (bytes d refl) q position)

  answer-Ready :
      (n : ℕ) (st : Syncing S) (r : Result ConnectorError OpenCtiPage)
      → c.options.max_pages < suc n + st.report.pages
      → st.report.pages < c.options.max_pages
      → Held st
      → c.client.page st.look c.source st.cursor.added_after st.after c.options.page_size ≡ r
      → Leads Kept (Ready n) (answer c st r)
  unfolding Ready persist give_up finish
  answer-Ready n st (err e) fuel within (mine, position, safe) got =
      left-Safe (left c failed st.cursor) st.after st.store_state mine position safe
  answer-Ready n st (ok page) fuel within (mine, position, safe) got =
      let e = counted-eq st.report.pages c.options.max_pages within few in
      elim (Bool-cases (page.object_count == 0)) [
        | inl q ↦
            rw q (left-Safe (left c complete st.cursor) st.after st.store_state mine position safe)
        | inr q ↦ rw q (
            store_page-Ready n page (record st { report = counted c page st.report })
              (document_of c page) (omega (arith, e), omega (arith, e), (mine, position, safe)) got
              (document_of-bytes c page))
      ]

  round-Ready : (n : ℕ) (st : Syncing S) → Ready (suc n) st → Leads Kept (Ready n) (round c st)
  unfolding Ready finish persist round
  round-Ready n st (fuel, within, (mine, position, safe)) =
      elim (Bool-cases (c.is_cancelled st.look || leb c.options.max_pages st.report.pages)) [
        | inl q ↦
            rw (round, q)
              (left-Safe (left c partial st.cursor) st.after st.store_state mine position safe)
        | inr q ↦
            rw (round, q)
              (answer-Ready n st
                (c.client.page st.look c.source st.cursor.added_after st.after c.options.page_size)
                fuel (ground (arith, q)) (mine, position, safe) refl)
      ]

  no_round : (st : Syncing S) → Ready zero st → ⊥
  unfolding Ready
  no_round st (fuel, within, held) = absurd (omega (arith, fuel, within))

  begun :
      (s : S) (d : ConnectorCursor)
      → Held (first_round c d s)
      → Returns Kept (rounds (round c) (suc c.options.max_pages) (first_round c d s))
  unfolding Ready
  begun s d held =
      rounds-Returns Kept Ready (round c) no_round round-Ready (suc c.options.max_pages)
        (first_round c d s) (omega arith, omega arith, held)

  begin-Kept :
      (s : S) (found : Result ConnectorError (Option ConnectorCursor))
      → Position (starting opencti_connector (feed_key c.source) (c.to_rfc3339 c.now)) s
      → Safe s
      → ((d : ConnectorCursor) → found ≡ ok (some d) → Mine d × Position d s)
      → Returns Kept (begin c found s)
  begin-Kept s (err e) fresh safe old = safe
  begin-Kept s (ok none) fresh safe old = begun s _ ((refl, refl), fresh, safe)
  begin-Kept s (ok (some d)) fresh safe old =
      let (mine, position) = old d refl in begun s d (mine, position, safe)

  -- A run returns within its rounds, and however it returns the high-water mark of the stored cursor
  -- claims no more of the feed than is stored. The conditions: it held before; nothing is claimed of a
  -- feed that was not read; the store keeps what it holds; a request without a page cursor passes over
  -- no more than one with it; and where what the request for a page passes over is stored, and then
  -- the page, so is what the next request passes over, which has the page's newest change and its end
  -- cursor. The last is a condition on the server: its page cursors mean the same under a later filter.
  pub sync_opencti-Covered :
      (s : S)
      → Covered none none s
      → Read
          (c.store.connector_cursor opencti_connector (feed_key c.source) s)
          (λ d. Covered d.added_after none s)
      → Returns
          (λ o.
            Read
              (c.store.connector_cursor opencti_connector (feed_key c.source) o.1)
              (λ d. Covered d.added_after none o.1))
          (sync_opencti c s)
  unfolding sync_opencti
  sync_opencti-Covered s fresh old =
      let read = c.store.connector_cursor opencti_connector (feed_key c.source) in
      let safe : Safe s = λ d h. Read-at (read s) (λ d. Position d s) d old h in
      Returns-map Kept (λ o. Read (read o.1) (λ d. Position d o.1)) (sync_opencti c s)
        (λ o h. Read-all (read o.1) (λ d. Position d o.1) h)
        (begin-Kept s (stored c.source.base_url (read s)) fresh safe (λ d h.
          let q = stored-ok c.source.base_url (read s) (some d) h in
          (laws.own opencti_connector (feed_key c.source) s d q, safe d q)))
