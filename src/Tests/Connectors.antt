-- ===== src/Tests/Connectors.antt =====
-- Runs of crates/brolga-connectors/src/sync.rs, over a store that logs what it is given.
use mathlib.Core.List.{Memᴰ}
use brolga.Prelude.{
  ℕ, ◌≡◌, refl, sym, ap, ◌∙◌, subst, true, false, ◌&&◌, Option, none, some, List, [], ◌∷◌, ◌++◌,
  ◌↔◌, Text, codes, text_eq, text_eq_iff, if◌then◌else◌, Bool-cases, inl, inr, arith,
}
use brolga.Prelude.Results.{Result, ok}
use brolga.Model.Temporal.{Timestamp}
use brolga.Connectors.Cursor.{ConnectorCursor, parse, as_str, partial, parse-as_str}
use brolga.Connectors.Errors.{ConnectorError}
use brolga.Connectors.Sync.{
  Backend, Document, Ingested, SyncReport, default_options, or_else, is_complete,
}
use brolga.Connectors.Sync.Laws.{IsBackend, Read}
use brolga.Connectors.Sync.Publisher.{bounded_publisher, is_char_boundary}
use brolga.Connectors.Sync.Rounds.{Returns}
use brolga.Connectors.Taxii.{Collection, ObjectPage, taxii_connector, sync_collection}
use brolga.Connectors.Taxii.Reading.{Reliable}
use brolga.Connectors.Taxii.Returned.{sync_collection-Covered}
use brolga.Connectors.Taxii.Reported.{Truthful, sync_collection-Truthful}
use brolga.Connectors.Taxii.Finishes.{sync_collection_finishes}

pub record Log : Type 0 where
  pub cursors : List ConnectorCursor
  pub bodies : List Text

abbrev pub fresh_log : Log
fresh_log = record { cursors = []; bodies = [] }

unfoldable pub find : Text → Text → List ConnectorCursor → Option ConnectorCursor
find j k [] = none
find j k (c ∷ cs) =
    let rest = find j k cs in if text_eq j c.connector && text_eq k c.feed then some c else rest

unfoldable pub log_backend : Backend Log
log_backend = record {
  connector_cursor = λ j k s. ok (find j k s.cursors);
  put_connector_cursor = λ c s. (ok tt, record s { cursors = c ∷ s.cursors });
  ingest_batch = λ d n s.
      (ok (record { inserted = 1; rejected = 0 }), record s { bodies = s.bodies ++ d.bytes ∷ [] });
}

find-own :
    (j k : Text) (cs : List ConnectorCursor) (c : ConnectorCursor)
    → find j k cs ≡ some c
    → (c.connector ≡ j) × (c.feed ≡ k)
unfolding find
find-own j k [] c h = cc
find-own j k (d ∷ cs) c h = elim (Bool-cases (text_eq j d.connector && text_eq k d.feed)) [
  | inl q ↦
      let same : d ≡ c = ground (arith, rw q at h) in
      subst (λ (x : ConnectorCursor). (x.connector ≡ j) × (x.feed ≡ k)) same
        (ground (arith, text_eq_iff j d.connector), ground (arith, text_eq_iff k d.feed))
  | inr q ↦ find-own j k cs c (rw q at h)
]

pub log_laws : IsBackend log_backend
unfolding log_backend find
log_laws = record {
  own = λ j k s c h. find-own j k s.cursors c (ground (arith, h));
  put_read = λ c s u j k h. ground arith;
  put_refused = λ c s e j k h. cc;
  ingest_read = λ d n s j k. refl;
}

log-Reliable : Reliable log_backend (λ s. s.bodies)
unfolding log_backend
log-Reliable = record {
  puts = λ d s. (refl, refl);
  ingests = λ d n s. (record { inserted = 1; rejected = 0 }, refl, refl);
}

abbrev pub noon : Timestamp
noon = record { seconds = 43200; nanosecond = 0 }

abbrev first_page : ObjectPage
first_page = record {
  body = codes "{1}";
  url = codes "https://t/1";
  newest_added = some (codes "2024");
  next = some (codes "n");
  more = true;
  object_count = 2;
  etag = none;
}

abbrev last_page : ObjectPage
last_page = record first_page {
  body = codes "{2}";
  newest_added = some (codes "2025");
  more = false;
}

abbrev pages_from : Option Text → ObjectPage
pages_from none = first_page
pages_from (some p) = last_page

abbrev two_pages : Collection Log
two_pages = record {
  client = record { objects = λ look root id p t size etag. ok (some (pages_from p)) };
  store = log_backend;
  feed = record { api_root = codes "https://t/"; collection_id = codes "c" };
  now = noon;
  to_rfc3339 = λ t. codes "noon";
  options = default_options;
  is_cancelled = λ n. false;
}

-- Of a feed that has a high-water mark, the first page is stored.
abbrev Covered : Option Text → Option Text → Log → Type 0
Covered none t s = Unit
Covered (some p) t s = Memᴰ (codes "{1}") s.bodies

pub append-Memᴰ : (a : Text) (xs ys : List Text) → Memᴰ a xs → Memᴰ a (xs ++ ys)
append-Memᴰ a [] ys m = elim m [ ]
append-Memᴰ a (x ∷ xs) ys (Memᴰ.head e) = Memᴰ.head e
append-Memᴰ a (x ∷ xs) ys (Memᴰ.tail m) = Memᴰ.tail (append-Memᴰ a xs ys m)

pub last-Memᴰ : (a : Text) (xs : List Text) → Memᴰ a (xs ++ a ∷ [])
last-Memᴰ a [] = Memᴰ.head refl
last-Memᴰ a (x ∷ xs) = Memᴰ.tail (last-Memᴰ a xs)

Covered-ingest :
    (p t : Option Text) (d : Document) (n : ℕ) (s : Log)
    → Covered p t s
    → Covered p t (log_backend.ingest_batch d n s).1
unfolding log_backend
Covered-ingest none t d n s h = tt
Covered-ingest (some p) t d n s h = append-Memᴰ (codes "{1}") s.bodies (d.bytes ∷ []) h

Covered-put :
    (p t : Option Text) (d : ConnectorCursor) (s : Log)
    → Covered p t s
    → Covered p t (log_backend.put_connector_cursor d s).1
unfolding log_backend
Covered-put none t d s h = tt
Covered-put (some p) t d s h = h

-- A page of this server is stored in full.
Covered-page :
    (look : ℕ) (p t etag : Option Text) (page : ObjectPage) (d : Document) (s : Log)
    (counts : Ingested)
    → ◌≡◌ {A = Result ConnectorError (Option ObjectPage)}
        (ok (some (pages_from p)))
        (ok (some page))
    → d.bytes ≡ page.body
    → (log_backend.ingest_batch d look s).0 ≡ ok counts
    → Covered p t s
    → Covered
        (or_else page.newest_added p)
        (if page.more then page.next else none)
        (log_backend.ingest_batch d look s).1
unfolding log_backend
Covered-page look none t etag page d s counts got bytes stored h =
    let same : first_page ≡ page = cc in
    let body : d.bytes ≡ codes "{1}" = bytes ∙ ap (λ (x : ObjectPage). x.body) (sym same) in
    subst
      (λ (x : ObjectPage).
        Covered (or_else x.newest_added none) (if x.more then x.next else none)
          (log_backend.ingest_batch d look s).1)
      same
      (subst (λ b. Memᴰ (codes "{1}") (s.bodies ++ b ∷ [])) (sym body)
        (last-Memᴰ (codes "{1}") s.bodies))
Covered-page look (some p) t etag page d s counts got bytes stored h =
    let same : last_page ≡ page = cc in
    subst
      (λ (x : ObjectPage).
        Covered (or_else x.newest_added (some p)) (if x.more then x.next else none)
          (log_backend.ingest_batch d look s).1)
      same (append-Memᴰ (codes "{1}") s.bodies (d.bytes ∷ []) h)

Covered-empty :
    (look : ℕ) (p t etag : Option Text) (page : ObjectPage) (s : Log)
    → ◌≡◌ {A = Result ConnectorError (Option ObjectPage)}
        (ok (some (pages_from p)))
        (ok (some page))
    → page.object_count ≡ 0
    → Covered p t s
    → Covered p none s
Covered-empty look none t etag page s got empty h = tt
Covered-empty look (some p) t etag page s got empty h = h

sync_collection-Covered_example :
    Returns
      (λ o.
        Read
          (log_backend.connector_cursor taxii_connector (codes "c") o.1)
          (λ d. Covered d.added_after d.next_token o.1))
      (sync_collection two_pages fresh_log)
unfolding log_backend find
sync_collection-Covered_example =
    sync_collection-Covered two_pages log_laws (omega arith) Covered Covered-put Covered-ingest
      Covered-page Covered-empty fresh_log tt tt

sync_collection-Truthful_example :
    Returns (Truthful two_pages log_laws (omega arith)) (sync_collection two_pages fresh_log)
sync_collection-Truthful_example =
    sync_collection-Truthful two_pages log_laws (omega arith) fresh_log

sync_collection_finishes_example :
    Returns
      (λ o.
        (report : SyncReport) × (o.0 ≡ ok report)
        × (is_complete report ≡ true)
        × (report.pages ≡ 2)
        × (o.1.bodies ≡ codes "{1}" ∷ codes "{2}" ∷ []))
      (sync_collection two_pages fresh_log)
unfolding log_backend find
sync_collection_finishes_example =
    sync_collection_finishes two_pages (λ s. s.bodies) log-Reliable (λ n. refl) (omega arith)
      (ground arith) fresh_log none (first_page ∷ last_page ∷ []) refl
      ((refl, omega arith, refl, (refl, omega arith, refl))) (omega arith)

bounded_publisher_test : bounded_publisher (codes "https://t//") ≡ codes "https://t"
unfolding bounded_publisher is_char_boundary
bounded_publisher_test = refl

parse-as_str_example : (parse (codes "partial") ≡ some partial) ↔ (codes "partial" ≡ as_str partial)
parse-as_str_example = parse-as_str (codes "partial") partial
