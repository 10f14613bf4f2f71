-- ===== src/Connectors/Taxii/Reading.antt =====
-- The document that `sync_collection` makes of a page, and the rounds that read a page of a feed, over a store that takes it.
use brolga.Prelude.{
  ℕ, suc, ◌+◌, ◌≤◌, ◌<◌, ◌≡◌, refl, sym, ap, ◌∙◌, true, false, Option, none, some, List, [], ◌∷◌,
  ◌++◌, Text, codes, leb, ◌==◌, u64_max, saturating_add, All, arith,
}
use brolga.Prelude.Results.{ok, bind-bind-ok}
use brolga.Model.Bounded.{media_type, short_text, is_control}
use brolga.Connectors.Cursor.{ConnectorCursor}
use brolga.Connectors.Sync.{Document, Ingested, Backend, persist, or_else, checked}
use brolga.Connectors.Sync.Publisher.{bounded_publisher, bounded_publisher-accepted}
use brolga.Connectors.Sync.Laws.{counted-eq}
use brolga.Connectors.Taxii.{Collection, Syncing, ObjectPage, advanced, follow, document_of, round}

-- The document made of a page is of its body.
pub document_of-bytes :
    {S : Type 0} (c : Collection S) (page : ObjectPage) (d : Document)
    → document_of c page ≡ ok d
    → d.bytes ≡ page.body
unfolding document_of
document_of-bytes c page d h =
    let (m, p, e) =
      bind-bind-ok (checked page.url (media_type (codes "application/stix+json")))
        (checked page.url (short_text (bounded_publisher c.feed.api_root)))
        (λ (m : Text) (p : Text). record {
          bytes = page.body;
          media_type = m;
          publisher = p;
          retrieved_at = c.now;
        })
        d h in
    sym (ap (λ (x : Document). x.bytes) e)

-- A store that takes every write, and in which `contents` tells what was ingested.
pub record Reliable {S : Type 0} (store : Backend S) (contents : S → List Text) : Type 0 where
  pub puts :
      (d : ConnectorCursor) (s : S)
      → ((store.put_connector_cursor d s).0 ≡ ok tt)
        × (contents (store.put_connector_cursor d s).1 ≡ contents s)
  pub ingests :
      (d : Document) (n : ℕ) (s : S)
      → (counts : Ingested) × ((store.ingest_batch d n s).0 ≡ ok counts)
        × (contents (store.ingest_batch d n s).1 ≡ contents s ++ d.bytes ∷ [])

stix_media_type : media_type (codes "application/stix+json") ≡ ok (codes "application/stix+json")
unfolding media_type
stix_media_type = refl

module _ {S : Type 0} (c : Collection S) where
  -- From this look and position on, the server has these pages, each with some object, and says of
  -- the last that no more follow.
  abbrev pub Serves : ℕ → Option Text → Option Text → Option Text → List ObjectPage → Type 0
  Serves look p t etag [] = ⊥
  Serves look p t etag (page ∷ []) =
      (c.client.objects look c.feed.api_root c.feed.collection_id p t c.options.page_size etag
        ≡ ok (some page))
      × (0 < page.object_count)
      × (page.more ≡ false)
  Serves look p t etag (page ∷ next ∷ rest) =
      (c.client.objects look c.feed.api_root c.feed.collection_id p t c.options.page_size etag
        ≡ ok (some page))
      × (0 < page.object_count)
      × (page.more ≡ true)
      × Serves (look + 1) (or_else page.newest_added p) page.next none (next ∷ rest)

  document_of-ok :
      (page : ObjectPage)
      → All (λ x. is_control x ≡ false) c.feed.api_root
      → (d : Document) × (document_of c page ≡ ok d) × (d.bytes ≡ page.body)
  unfolding document_of
  document_of-ok page p = (
    record {
      bytes = page.body;
      media_type = codes "application/stix+json";
      publisher = bounded_publisher c.feed.api_root;
      retrieved_at = c.now;
    },
    rw (stix_media_type, bounded_publisher-accepted c.feed.api_root p) refl,
    refl,
  )

  module _ (contents : S → List Text) (reliable : Reliable c.store contents)
      (uncancelled : (n : ℕ) → c.is_cancelled n ≡ false) (few : c.options.max_pages ≤ u64_max)
      (printable : All (λ x. is_control x ≡ false) c.feed.api_root) where
    -- A round that reads a page stores it and goes on as the server says.
    pub round-reads :
        (st : Syncing S) (page : ObjectPage)
        → st.report.pages < c.options.max_pages
        → c.client.objects st.look c.feed.api_root c.feed.collection_id st.cursor.added_after
            st.next c.options.page_size st.etag
          ≡ ok (some page)
        → 0 < page.object_count
        → (after : Syncing S) × (round c st ≡ follow c page after (ok tt))
          × (after.report.pages ≡ suc st.report.pages)
          × (after.cursor ≡ advanced c page st.cursor)
          × (contents after.store_state ≡ contents st.store_state ++ page.body ∷ [])
          × (after.look ≡ st.look)
    unfolding round persist
    round-reads st page within got some_objects =
        let (d, made, bytes) = document_of-ok page printable in
        let (counts, ingested, holds) = reliable.ingests d st.look st.store_state in
        let s = (c.store.ingest_batch d st.look st.store_state).1 in
        let cursor = advanced c page st.cursor in
        let (put, same) = reliable.puts cursor s in
        let after : Syncing S = record st {
          store_state = (c.store.put_connector_cursor cursor s).1;
          cursor = cursor;
          report = record (st.report) {
            pages = saturating_add st.report.pages 1;
            objects = saturating_add st.report.objects page.object_count;
            inserted = saturating_add st.report.inserted counts.inserted;
            quarantined = saturating_add st.report.quarantined counts.rejected;
          };
        } in
        let several : (page.object_count == 0) ≡ false = ground arith in
        let room : leb c.options.max_pages st.report.pages ≡ false = ground arith in
        (
          after,
          rw (round, uncancelled st.look, room, got, several, made, ingested, put) refl,
          counted-eq st.report.pages c.options.max_pages within few,
          refl,
          same ∙ holds ∙ ap (λ b. contents st.store_state ++ b ∷ []) bytes,
          refl,
        )
