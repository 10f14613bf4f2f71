-- ===== src/Connectors/Taxii/Finishes.antt =====
-- A run of `sync_collection` over a feed that ends reads all of it.
use brolga.Prelude.{
  ℕ, zero, suc, ◌+◌, ◌≤◌, ◌≡◌, refl, sym, ap, ◌∙◌, subst, true, false, Option, none, List, [], ◌∷◌,
  ◌++◌, map, length, Text, if◌then◌else◌, u64_max, All, arith,
}
use mathlib.Core.List.{append_assoc}
use brolga.Prelude.Results.{ok}
use brolga.Model.Bounded.{is_control}
use brolga.Connectors.Cursor.{ConnectorCursor, complete, starting}
use brolga.Connectors.Sync.{SyncReport, Outcome, or_else, unwrap_or, is_complete, covers}
use brolga.Connectors.Sync.Rounds.{Returns, Leads, rounds, rounds-Returns}
use brolga.Connectors.Taxii.{
  Collection, Syncing, ObjectPage, taxii_connector, advanced, follow, round, first_round,
  sync_collection,
}
use brolga.Connectors.Taxii.Reading.{Reliable, Serves, round-reads}

module _ {S : Type 0} (c : Collection S) (contents : S → List Text)
    (reliable : Reliable c.store contents) (uncancelled : (n : ℕ) → c.is_cancelled n ≡ false)
    (few : c.options.max_pages ≤ u64_max)
    (printable : All (λ x. is_control x ≡ false) c.feed.api_root) where
  module _ (total : ℕ) (final : List Text) (enough : total ≤ c.options.max_pages) where
    abbrev Finished : Outcome S → Type 0
    Finished o =
        (report : SyncReport) × (o.0 ≡ ok report)
        × (is_complete report ≡ true)
        × (report.pages ≡ total)
        × (contents o.1 ≡ final)

    -- These pages are still to come.
    abbrev Awaits : List ObjectPage → ℕ → Syncing S → Type 0
    Awaits pages n st =
        Serves c st.look st.cursor.added_after st.next st.etag pages
        × (length pages ≤ n)
        × (st.report.pages + length pages ≡ total)
        × (contents st.store_state ++ map (λ page. page.body) pages ≡ final)

    Awaiting : ℕ → Syncing S → Type 0
    Awaiting n st = (pages : List ObjectPage) × Awaits pages n st

    goes_on :
        (page next : ObjectPage) (rest : List ObjectPage) (n : ℕ) (st after : Syncing S)
        → Awaits (page ∷ next ∷ rest) (suc n) st
        → after.report.pages ≡ suc st.report.pages
        → after.cursor ≡ advanced c page st.cursor
        → contents after.store_state ≡ contents st.store_state ++ page.body ∷ []
        → after.look ≡ st.look
        → Leads Finished (Awaiting n) (follow c page after (ok tt))
    unfolding Awaiting
    goes_on page next rest n st after ((got, some_objects, more, serves), fuel, sum, all) pages
          cursor holds look =
        let moved : after.cursor.added_after ≡ or_else page.newest_added st.cursor.added_after =
          ap (λ (d : ConnectorCursor). d.added_after) cursor in
        rw more (
          next ∷ rest,
          (
            rw (look, moved) serves,
            omega (arith, fuel),
            omega (arith, pages, sum),
            ap (λ l. l ++ map (λ page. page.body) (next ∷ rest)) holds
                ∙ append_assoc (contents st.store_state) (page.body ∷ [])
                    (map (λ page. page.body) (next ∷ rest))
                ∙ all,
          ),
        )

    ends :
        (page : ObjectPage) (n : ℕ) (st after : Syncing S)
        → Awaits (page ∷ []) (suc n) st
        → after.report.pages ≡ suc st.report.pages
        → after.cursor ≡ advanced c page st.cursor
        → contents after.store_state ≡ contents st.store_state ++ page.body ∷ []
        → Leads Finished (Awaiting n) (follow c page after (ok tt))
    unfolding is_complete
    ends page n st after ((got, some_objects, last), fuel, sum, all) pages cursor holds =
        let status : after.cursor.last_status ≡ complete =
          ap (λ (d : ConnectorCursor). d.last_status) cursor ∙ rw last refl in
        rw last (
          record (after.report) { cursor = after.cursor },
          refl,
          ap covers status,
          omega (arith, pages, sum),
          holds ∙ all,
        )

    round-Awaits :
        (pages : List ObjectPage) (n : ℕ) (st : Syncing S)
        → Awaits pages (suc n) st
        → Leads Finished (Awaiting n) (round c st)
    round-Awaits [] n st w = absurd w.0
    round-Awaits (page ∷ []) n st w =
        let (after, e, pages, cursor, holds, look) =
          round-reads c contents reliable uncancelled few printable st page
            (omega (arith, w.2, enough)) w.0.0 w.0.1 in
        subst (Leads Finished (Awaiting n)) (sym e) (ends page n st after w pages cursor holds)
    round-Awaits (page ∷ next ∷ rest) n st w =
        let (after, e, pages, cursor, holds, look) =
          round-reads c contents reliable uncancelled few printable st page
            (omega (arith, w.2, enough)) w.0.0 w.0.1 in
        subst (Leads Finished (Awaiting n)) (sym e)
          (goes_on page next rest n st after w pages cursor holds look)

    rounds-Finished :
        (n : ℕ) (st : Syncing S) → Awaiting n st → Returns Finished (rounds (round c) n st)
    unfolding Awaiting
    rounds-Finished =
        rounds-Returns Finished Awaiting (round c) nothing_left
          (λ n st w. round-Awaits w.0 n st w.1)
      where
        nothing_left : (st : Syncing S) → Awaiting zero st → ⊥
        nothing_left st ([], w) = w.0
        nothing_left st (page ∷ pages, w) = absurd (omega (arith, w.1))

  -- When no look finds the run cancelled, the store takes every write, the feed of the stored
  -- cursor ends after some pages that each have objects, and they are no more than `max_pages`,
  -- the run returns a report of a complete run over these pages, with their bodies ingested in
  -- order after what was there.
  pub sync_collection_finishes :
      (s : S) (found : Option ConnectorCursor) (pages : List ObjectPage)
      → c.store.connector_cursor taxii_connector c.feed.collection_id s ≡ ok found
      → (let cursor =
            unwrap_or (starting taxii_connector c.feed.collection_id (c.to_rfc3339 c.now)) found in
          Serves c 0 cursor.added_after cursor.next_token
            (if c.options.use_etag then cursor.etag else none)
            pages)
      → length pages ≤ c.options.max_pages
      → Returns
          (λ o.
            (report : SyncReport) × (o.0 ≡ ok report)
            × (is_complete report ≡ true)
            × (report.pages ≡ length pages)
            × (contents o.1 ≡ contents s ++ map (λ page. page.body) pages))
          (sync_collection c s)
  unfolding sync_collection Awaiting
  sync_collection_finishes s found pages old serves enough = rw old (
      rounds-Finished (length pages) (contents s ++ map (λ page. page.body) pages) enough
        (suc c.options.max_pages)
        (first_round c
          (unwrap_or (starting taxii_connector c.feed.collection_id (c.to_rfc3339 c.now)) found) s)
        (pages, (serves, omega arith, omega arith, refl)))
