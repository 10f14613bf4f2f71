-- ===== src/Tests/OpenCti.antt =====
-- Runs of `sync_opencti` of crates/brolga-connectors/src/sync.rs.
use mathlib.Core.List.{Memᴰ}
use brolga.Prelude.{
  ℕ, ◌≡◌, refl, subst, true, false, Option, none, some, Text, codes, text_eq, List, [], ◌∷◌, ◌++◌,
  arith, if◌then◌else◌,
}
use brolga.Prelude.Results.{Result, ok}
use brolga.Connectors.Cursor.{ConnectorCursor}
use brolga.Connectors.Errors.{ConnectorError}
use brolga.Connectors.Sync.{Document, Ingested, default_options, or_else, Outcome, persist, finish}
use brolga.Connectors.Sync.Laws.{Read}
use brolga.Connectors.Sync.Rounds.{Returns, rounds}
use brolga.Model.Bounded.{short_text, media_type}
use brolga.Connectors.Sync.Publisher.{bounded_publisher, is_char_boundary}
use brolga.Connectors.OpenCti.{OpenCtiPage, Polling, opencti_connector, moved, sync_opencti}
use brolga.Connectors.OpenCti.Returned.{sync_opencti-Covered}
use brolga.Tests.Connectors.{
  Log, fresh_log, log_backend, log_laws, find, noon, append-Memᴰ, last-Memᴰ,
}

-- A server of two records, changed in 2024 and in 2025, whose pages have one record each and whose
-- page cursors are positions in the order of change.
abbrev first_page : OpenCtiPage
first_page = record {
  body = codes "{1}";
  url = codes "https://o/graphql";
  object_count = 1;
  unrenderable = 0;
  newest_modified = some (codes "2024");
  end_cursor = some (codes "a");
  more = true;
}

abbrev second_page : OpenCtiPage
second_page = record first_page {
  body = codes "{2}";
  newest_modified = some (codes "2025");
  end_cursor = some (codes "b");
}

abbrev empty_page : OpenCtiPage
empty_page = record first_page {
  body = codes "{}";
  object_count = 0;
  newest_modified = none;
  end_cursor = none;
  more = false;
}

-- How many records come before a position.
data Place : Type 0 where
  at_start past_first past_both : Place

-- The place of a position, where this is the position past the first record.
abbrev place : Text → Option Text → Place
place first none = at_start
place first (some x) = if text_eq x first then past_first else past_both

-- The page after the records that either position passes over.
abbrev page_after : Place → Place → OpenCtiPage
page_after at_start at_start = first_page
page_after at_start past_first = second_page
page_after past_first at_start = second_page
page_after past_first past_first = second_page
page_after at_start past_both = empty_page
page_after past_first past_both = empty_page
page_after past_both q = empty_page

abbrev server : Polling Log
server = record {
  client = record {
    page = λ look i since after size.
        ok (page_after (place (codes "2024") since) (place (codes "a") after));
  };
  store = log_backend;
  source = record { name = codes "o"; base_url = codes "https://o"; token = codes "s" };
  now = noon;
  to_rfc3339 = λ t. codes "noon";
  options = default_options;
  is_cancelled = λ n. false;
}

-- The records before a place are stored.
abbrev Has : Place → List Text → Type 0
Has at_start bodies = Unit
Has past_first bodies = Memᴰ (codes "{1}") bodies
Has past_both bodies = Memᴰ (codes "{1}") bodies × Memᴰ (codes "{2}") bodies

-- The records that a request passes over are stored.
abbrev Covered : (since after : Option Text) → Log → Type 0
Covered p t s = Has (place (codes "2024") p) s.bodies × Has (place (codes "a") t) s.bodies

Has-append : (n : Place) (bodies : List Text) (b : Text) → Has n bodies → Has n (bodies ++ b ∷ [])
Has-append at_start bodies b h = tt
Has-append past_first bodies b h = append-Memᴰ (codes "{1}") bodies (b ∷ []) h
Has-append past_both bodies b h =
    (append-Memᴰ (codes "{1}") bodies (b ∷ []) h.0, append-Memᴰ (codes "{2}") bodies (b ∷ []) h.1)

Covered-put :
    (p t : Option Text) (d : ConnectorCursor) (s : Log)
    → Covered p t s
    → Covered p t (log_backend.put_connector_cursor d s).1
unfolding log_backend
Covered-put p t d s h = h

Covered-ingest :
    (p t : Option Text) (d : Document) (n : ℕ) (s : Log)
    → Covered p t s
    → Covered p t (log_backend.ingest_batch d n s).1
unfolding log_backend
Covered-ingest p t d n s h = (
  Has-append (place (codes "2024") p) s.bodies d.bytes h.0,
  Has-append (place (codes "a") t) s.bodies d.bytes h.1,
)

Covered-restarts : (p t : Option Text) (s : Log) → Covered p t s → Covered p none s
Covered-restarts p t s h = (h.0, tt)

-- The records that the next request passes over, once a page is stored.
Has-page :
    (p : Option Text) (j : Place) (bodies : List Text)
    → Has (place (codes "2024") p) bodies
    → Has j bodies
    → let page = page_after (place (codes "2024") p) j in
      let after = bodies ++ page.body ∷ [] in
      Has (place (codes "2024") (or_else page.newest_modified p)) after
      × Has (place (codes "a") page.end_cursor) after
unfolding text_eq
Has-page p j bodies = go (place (codes "2024") p) j refl
  where
    both :
        Memᴰ (codes "{1}") bodies
        → let after = bodies ++ codes "{2}" ∷ [] in
          (Memᴰ (codes "{1}") after × Memᴰ (codes "{2}") after)
          × (Memᴰ (codes "{1}") after × Memᴰ (codes "{2}") after)
    both m =
        let one = append-Memᴰ (codes "{1}") bodies (codes "{2}" ∷ []) m in
        let two = last-Memᴰ (codes "{2}") bodies in ((one, two), (one, two))

    go :
        (i j : Place)
        → place (codes "2024") p ≡ i
        → Has i bodies
        → Has j bodies
        → let page = page_after i j in
          let after = bodies ++ page.body ∷ [] in
          Has (place (codes "2024") (or_else page.newest_modified p)) after
          × Has (place (codes "a") page.end_cursor) after
    go at_start at_start e h k = (last-Memᴰ (codes "{1}") bodies, last-Memᴰ (codes "{1}") bodies)
    go at_start past_first e h k = both k
    go past_first at_start e h k = both h
    go past_first past_first e h k = both h
    go at_start past_both e h k = (rw e tt, tt)
    go past_first past_both e h k = (rw e (Has-append past_first bodies (codes "{}") h), tt)
    go past_both j e h k = (rw e (Has-append past_both bodies (codes "{}") h), tt)

Covered-page :
    (look : ℕ) (p t : Option Text) (page : OpenCtiPage) (d : Document) (s : Log) (counts : Ingested)
    → ◌≡◌ {A = Result ConnectorError OpenCtiPage}
        (ok (page_after (place (codes "2024") p) (place (codes "a") t)))
        (ok page)
    → d.bytes ≡ page.body
    → (log_backend.ingest_batch d look s).0 ≡ ok counts
    → Covered p t s
    → Covered (or_else page.newest_modified p) page.end_cursor (log_backend.ingest_batch d look s).1
unfolding log_backend
Covered-page look p t page d s counts got bytes stored h =
    let same : page_after (place (codes "2024") p) (place (codes "a") t) ≡ page = cc in
    rw bytes (
      subst
        (λ (x : OpenCtiPage).
          Has (place (codes "2024") (or_else x.newest_modified p)) (s.bodies ++ x.body ∷ [])
          × Has (place (codes "a") x.end_cursor) (s.bodies ++ x.body ∷ []))
        same (Has-page p (place (codes "a") t) s.bodies h.0 h.1))

bodies_of : Option (Outcome Log) → List Text
bodies_of none = []
bodies_of (some o) = o.1.bodies

-- Both records are read, by two positions that move on together.
server_test : bodies_of (sync_opencti server fresh_log) ≡ codes "{1}" ∷ codes "{2}" ∷ []
unfolding bodies_of sync_opencti log_backend find rounds media_type short_text bounded_publisher
    is_char_boundary persist moved text_eq finish
server_test = refl

sync_opencti-Covered_example :
    Returns
      (λ o.
        Read
          (log_backend.connector_cursor opencti_connector (codes "o/stix") o.1)
          (λ d. Covered d.added_after none o.1))
      (sync_opencti server fresh_log)
unfolding log_backend find
sync_opencti-Covered_example =
    sync_opencti-Covered server log_laws (omega arith) Covered Covered-put Covered-ingest
      Covered-restarts Covered-page fresh_log (tt, tt) tt

moved_test : moved (some (codes "e")) (some (codes "e")) ≡ none
unfolding moved text_eq
moved_test = refl
