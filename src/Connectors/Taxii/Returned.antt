-- ===== src/Connectors/Taxii/Returned.antt =====
-- What `sync_collection` leaves in the store, whichever way it returns.
use brolga.Prelude.{
  ℕ, zero, suc, ◌+◌, ◌≤◌, ◌<◌, ◌≡◌, refl, ap, ◌∙◌, subst, inl, inr, Option, none, some, Text, leb,
  ◌==◌, if◌then◌else◌, u64_max, saturating_add, Bool-cases, arith,
}
use brolga.Prelude.Results.{Result, ok, err}
use brolga.Connectors.Cursor.{ConnectorCursor, complete, partial, failed, not_modified}
use brolga.Connectors.Errors.{ConnectorError}
use brolga.Connectors.Sync.{Document, Ingested, Outcome, persist, finish, give_up, or_else, stored}
use brolga.Connectors.Sync.Rounds.{Returns, Leads, Returns-map}
use brolga.Connectors.Sync.Laws.{
  IsBackend, Own, Stored, put-Stored, ingest-Stored, Read, Read-all, Read-at, counted-eq, stored-ok,
}
use brolga.Connectors.Taxii.Begun.{begin-Returns}
use brolga.Connectors.Taxii.Reading.{document_of-bytes}
use brolga.Connectors.Taxii.{
  Collection, Syncing, ObjectPage, taxii_connector, left, advanced, follow, advance, store_page,
  document_of, answer, round, first_round, sync_collection,
}

module _ {S : Type 0} (c : Collection S) (laws : IsBackend c.store)
    (few : c.options.max_pages ≤ u64_max) (Covered : Option Text → Option Text → S → Type 0)
    (put_keeps : (p t : Option Text) (d : ConnectorCursor) (s : S)
      → Covered p t s
      → Covered p t (c.store.put_connector_cursor d s).1)
    (ingest_keeps : (p t : Option Text) (d : Document) (n : ℕ) (s : S)
      → Covered p t s
      → Covered p t (c.store.ingest_batch d n s).1)
    (page_covers : (look : ℕ) (p t etag : Option Text) (page : ObjectPage) (d : Document) (s : S)
        (counts : Ingested)
      → c.client.objects look c.feed.api_root c.feed.collection_id p t c.options.page_size etag
        ≡ ok (some page)
      → d.bytes ≡ page.body
      → (c.store.ingest_batch d look s).0 ≡ ok counts
      → Covered p t s
      → Covered
          (or_else page.newest_added p)
          (if page.more then page.next else none)
          (c.store.ingest_batch d look s).1)
    (empty_covers : (look : ℕ) (p t etag : Option Text) (page : ObjectPage) (s : S)
      → c.client.objects look c.feed.api_root c.feed.collection_id p t c.options.page_size etag
        ≡ ok (some page)
      → page.object_count ≡ 0
      → Covered p t s
      → Covered p none s) where
  abbrev Position : ConnectorCursor → S → Type 0
  Position d s = Covered d.added_after d.next_token s

  abbrev Safe : S → Type 0
  Safe = Stored c.store laws taxii_connector c.feed.collection_id Position

  abbrev Mine : ConnectorCursor → Type 0
  Mine = Own c.store laws taxii_connector c.feed.collection_id

  abbrev Kept : Outcome S → Type 0
  Kept o = Safe o.1

  put-Safe :
      (d : ConnectorCursor) (s : S)
      → Mine d
      → Position d s
      → Safe s
      → Safe (c.store.put_connector_cursor d s).1
  put-Safe =
      put-Stored c.store laws taxii_connector c.feed.collection_id Position
        (λ d e s h. put_keeps d.added_after d.next_token e s h)
        (λ d e n s h. ingest_keeps d.added_after d.next_token e n s h)

  ingest-Safe : (d : Document) (n : ℕ) (s : S) → Safe s → Safe (c.store.ingest_batch d n s).1
  ingest-Safe =
      ingest-Stored c.store laws taxii_connector c.feed.collection_id Position
        (λ d e s h. put_keeps d.added_after d.next_token e s h)
        (λ d e n s h. ingest_keeps d.added_after d.next_token e n s h)

  -- What holds all through a round that `n` more may follow, but for the pages counted in it.
  abbrev Held : Syncing S → Type 0
  Held st = Mine st.cursor × Position st.cursor st.store_state × Safe st.store_state

  abbrev Counted : ℕ → ℕ → Type 0
  Counted n pages = (c.options.max_pages < n + pages) × (pages ≤ c.options.max_pages)

  Ready : ℕ → Syncing S → Type 0
  Ready n st = Counted n st.report.pages × (st.cursor.next_token ≡ st.next) × Held st

  follow-Ready :
      (n : ℕ) (page : ObjectPage) (st : Syncing S) (r : Result ConnectorError (Unit {0}))
      → Counted n st.report.pages
      → st.cursor.next_token ≡ (if page.more then page.next else none)
      → Held st
      → Leads Kept (Ready n) (follow c page st r)
  unfolding Ready
  follow-Ready n page st (err e) counted token (mine, position, safe) = safe
  follow-Ready n page st (ok u) counted token (mine, position, safe) = elim (Bool-cases page.more) [
    | inl q ↦ rw q (counted, token ∙ rw q refl, (mine, position, safe))
    | inr q ↦ rw q safe
  ]

  advance-Ready :
      (n : ℕ) (page : ObjectPage) (st : Syncing S) (r : Result Text Ingested)
      → Counted n st.report.pages
      → Held st
      → ((counts : Ingested) → r ≡ ok counts → Position (advanced c page st.cursor) st.store_state)
      → Leads Kept (Ready n) (advance c page st r)
  unfolding persist give_up
  advance-Ready n page st (err e) counted (mine, position, safe) covers =
      put-Safe (left c failed st.cursor) st.store_state mine position safe
  advance-Ready n page st (ok counts) counted (mine, position, safe) covers =
      let cursor = advanced c page st.cursor in
      let report = record (st.report) {
        inserted = saturating_add st.report.inserted counts.inserted;
        quarantined = saturating_add st.report.quarantined counts.rejected;
      } in
      let (r, s) = persist c.store cursor c.feed.api_root st.store_state in
      let after = covers counts refl in
      follow-Ready n page (record st { store_state = s; cursor = cursor; report = report }) r
        counted refl
        (
          mine,
          put_keeps cursor.added_after cursor.next_token cursor st.store_state after,
          put-Safe cursor st.store_state mine after safe,
        )

  store_page-Ready :
      (n : ℕ) (etag : Option Text) (page : ObjectPage) (st : Syncing S)
      (d : Result ConnectorError Document)
      → Counted n st.report.pages
      → Held st
      → c.client.objects st.look c.feed.api_root c.feed.collection_id st.cursor.added_after
          st.cursor.next_token c.options.page_size etag
        ≡ ok (some page)
      → ((document : Document) → d ≡ ok document → document.bytes ≡ page.body)
      → Leads Kept (Ready n) (store_page c page st d)
  store_page-Ready n etag page st (err e) counted (mine, position, safe) got bytes = safe
  store_page-Ready n etag page st (ok d) counted (mine, position, safe) got bytes =
      let p = st.cursor.added_after in
      let t = st.cursor.next_token in
      let (r, s) = c.store.ingest_batch d st.look st.store_state in
      advance-Ready n page (record st { store_state = s }) r counted
        (
          mine,
          ingest_keeps p t d st.look st.store_state position,
          ingest-Safe d st.look st.store_state safe,
        )
        (λ counts q.
          page_covers st.look p t etag page d st.store_state counts got (bytes d refl) q position)

  answer-Ready :
      (n : ℕ) (st : Syncing S) (r : Result ConnectorError (Option ObjectPage))
      → c.options.max_pages < suc n + st.report.pages
      → st.report.pages < c.options.max_pages
      → Held st
      → c.client.objects st.look c.feed.api_root c.feed.collection_id st.cursor.added_after
          st.cursor.next_token c.options.page_size st.etag
        ≡ r
      → Leads Kept (Ready n) (answer c st r)
  unfolding persist give_up finish
  answer-Ready n st (err e) fuel within (mine, position, safe) got =
      put-Safe (left c failed st.cursor) st.store_state mine position safe
  answer-Ready n st (ok none) fuel within (mine, position, safe) got =
      put-Safe (left c not_modified st.cursor) st.store_state mine position safe
  answer-Ready n st (ok (some page)) fuel within (mine, position, safe) got =
      let e = counted-eq st.report.pages c.options.max_pages within few in
      elim (Bool-cases (page.object_count == 0)) [
        | inl q ↦ rw q (
            put-Safe
              (record (left c complete st.cursor) {
                next_token = none;
                etag = or_else page.etag st.cursor.etag;
              })
              st.store_state mine
              (empty_covers st.look st.cursor.added_after st.cursor.next_token st.etag page
                st.store_state got (ground (arith, q)) position)
              safe)
        | inr q ↦ rw q (
            store_page-Ready n st.etag page
              (record st {
                report = record (st.report) {
                  pages = saturating_add st.report.pages 1;
                  objects = saturating_add st.report.objects page.object_count;
                };
              })
              (document_of c page) (omega (arith, e), omega (arith, e)) (mine, position, safe) got
              (document_of-bytes c page))
      ]

  round-Ready : (n : ℕ) (st : Syncing S) → Ready (suc n) st → Leads Kept (Ready n) (round c st)
  unfolding Ready finish persist round
  round-Ready n st ((fuel, within), token, (mine, position, safe)) =
      elim (Bool-cases (c.is_cancelled st.look)) [
        | inl q ↦
            rw (round, q) (put-Safe (left c partial st.cursor) st.store_state mine position safe)
        | inr q ↦ elim (Bool-cases (leb c.options.max_pages st.report.pages)) [
          | inl k ↦
              rw (round, q, k)
                (put-Safe (record (left c partial st.cursor) { next_token = st.next })
                  st.store_state mine
                  (subst (λ t. Covered st.cursor.added_after t st.store_state) token position) safe)
          | inr k ↦
              rw (round, q, k)
                (answer-Ready n st
                  (c.client.objects st.look c.feed.api_root c.feed.collection_id
                    st.cursor.added_after st.next c.options.page_size st.etag)
                  fuel (ground (arith, k)) (mine, position, safe)
                  (ap
                    (λ t.
                      c.client.objects st.look c.feed.api_root c.feed.collection_id
                        st.cursor.added_after t c.options.page_size st.etag)
                    token))
        ]
      ]

  no_round : (st : Syncing S) → Ready zero st → ⊥
  unfolding Ready
  no_round st (counted, token, held) = absurd (omega (arith, counted.0, counted.1))

  first-Ready :
      (d : ConnectorCursor) (s : S)
      → Mine d
      → Position d s
      → Safe s
      → Ready (suc c.options.max_pages) (first_round c d s)
  unfolding Ready
  first-Ready d s mine position safe = ((omega arith, omega arith), refl, (mine, position, safe))

  -- A run returns within its rounds, and however it returns the stored cursor claims no more of the
  -- feed than is stored, where that held before and nothing is claimed of a feed that was not read.
  pub sync_collection-Covered :
      (s : S)
      → Covered none none s
      → Read
          (c.store.connector_cursor taxii_connector c.feed.collection_id s)
          (λ d. Covered d.added_after d.next_token s)
      → Returns
          (λ o.
            Read
              (c.store.connector_cursor taxii_connector c.feed.collection_id o.1)
              (λ d. Covered d.added_after d.next_token o.1))
          (sync_collection c s)
  unfolding sync_collection
  sync_collection-Covered s fresh old =
      let read = c.store.connector_cursor taxii_connector c.feed.collection_id in
      let safe : Safe s = λ d h. Read-at (read s) (λ d. Position d s) d old h in
      let found = stored c.feed.api_root (read s) in
      Returns-map Kept (λ o. Read (read o.1) (λ d. Position d o.1)) (sync_collection c s)
        (λ o h. Read-all (read o.1) (λ d. Position d o.1) h)
        (begin-Returns c Kept Ready no_round round-Ready s found (λ e. safe)
          (first-Ready _ s (refl, refl) fresh safe)
          (λ d h.
            let q = stored-ok c.feed.api_root (read s) (some d) h in
            first-Ready d s (laws.own taxii_connector c.feed.collection_id s d q) (safe d q) safe))
