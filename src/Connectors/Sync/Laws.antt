-- ===== src/Connectors/Sync/Laws.antt =====
-- What runs rely on of a `Backend`, and what a predicate on the cursor of a feed takes to hold of
-- the one that is stored.
use brolga.Prelude.{
  ◌<◌, ◌≤◌, suc, u64_max, saturating_add, refl, ℕ, ◌≡◌, sym, ◌∙◌, subst, inl, inr, ◌&&◌, Option,
  none, some, Text, text_eq, text_eq_iff, if◌then◌else◌, arith,
}
use brolga.Prelude.Results.{Result, ok, err, Result-cases}
use brolga.Connectors.Cursor.{ConnectorCursor}
use brolga.Connectors.Sync.{stored, Backend, Document}

-- A store keeps one cursor for each connector and feed, a write that is refused changes none, and
-- the pipeline writes none.
pub record IsBackend {S : Type 0} (store : Backend S) : Type 0 where
  pub own :
      (j k : Text) (s : S) (c : ConnectorCursor)
      → store.connector_cursor j k s ≡ ok (some c)
      → (c.connector ≡ j) × (c.feed ≡ k)
  pub put_read :
      (c : ConnectorCursor) (s : S) (u : Unit {0}) (j k : Text)
      → (store.put_connector_cursor c s).0 ≡ ok u
      → store.connector_cursor j k (store.put_connector_cursor c s).1 ≡ (
          if text_eq j c.connector && text_eq k c.feed
          then ok (some c)
          else store.connector_cursor j k s)
  pub put_refused :
      (c : ConnectorCursor) (s : S) (e : Text) (j k : Text)
      → (store.put_connector_cursor c s).0 ≡ err e
      → store.connector_cursor j k (store.put_connector_cursor c s).1 ≡ store.connector_cursor j k s
  pub ingest_read :
      (d : Document) (n : ℕ) (s : S) (j k : Text)
      → store.connector_cursor j k (store.ingest_batch d n s).1 ≡ store.connector_cursor j k s

pub counted-eq : (pages max : ℕ) → pages < max → max ≤ u64_max → saturating_add pages 1 ≡ suc pages
counted-eq pages max h k = ground arith

pub stored-ok :
    {A : Type 0} (url : Text) (r : Result Text A) (a : A) → stored url r ≡ ok a → r ≡ ok a
stored-ok url (ok b) a h = cc
stored-ok url (err e) a h = cc

-- Of a cursor that was read, if there is one.
abbrev pub Read : Result Text (Option ConnectorCursor) → (ConnectorCursor → Type 0) → Type 0
Read (ok (some c)) P = P c
Read (ok none) P = Unit
Read (err e) P = Unit

pub Read-all :
    (r : Result Text (Option ConnectorCursor)) (P : ConnectorCursor → Type 0)
    → ((c : ConnectorCursor) → r ≡ ok (some c) → P c)
    → Read r P
Read-all (ok (some c)) P h = h c refl
Read-all (ok none) P h = tt
Read-all (err e) P h = tt

pub Read-at :
    (r : Result Text (Option ConnectorCursor)) (P : ConnectorCursor → Type 0) (c : ConnectorCursor)
    → Read r P
    → r ≡ ok (some c)
    → P c
Read-at (ok (some d)) P c h e = let same : d ≡ c = cc in subst P same h
Read-at (ok none) P c h e = cc
Read-at (err x) P c h e = cc

module _ {S : Type 0} (store : Backend S) (laws : IsBackend store) (j k : Text) where
  -- A cursor of this connector and this feed.
  abbrev pub Own : ConnectorCursor → Type 0
  Own c = (c.connector ≡ j) × (c.feed ≡ k)

  pub put-Own :
      (c : ConnectorCursor) (s : S) (u : Unit {0})
      → Own c
      → (store.put_connector_cursor c s).0 ≡ ok u
      → store.connector_cursor j k (store.put_connector_cursor c s).1 ≡ ok (some c)
  put-Own c s u o h =
      ground (
        arith,
        laws.put_read c s u j k h,
        text_eq_iff j c.connector,
        text_eq_iff k c.feed,
        o.0,
        o.1,
      )

  -- What the store has as the cursor of this feed satisfies `P`.
  abbrev pub Stored : (ConnectorCursor → S → Type 0) → S → Type 0
  Stored P s = (c : ConnectorCursor) → store.connector_cursor j k s ≡ ok (some c) → P c s

  module _ (P : ConnectorCursor → S → Type 0)
      (put_keeps : (c d : ConnectorCursor) (s : S) → P c s → P c (store.put_connector_cursor d s).1)
      (ingest_keeps : (c : ConnectorCursor) (d : Document) (n : ℕ) (s : S)
        → P c s
        → P c (store.ingest_batch d n s).1) where
    pub put-Stored :
        (c : ConnectorCursor) (s : S)
        → Own c
        → P c s
        → Stored P s
        → Stored P (store.put_connector_cursor c s).1
    put-Stored c s o p stored d h = elim (Result-cases (store.put_connector_cursor c s).0) [
      | inl (u, q) ↦
          let e : c ≡ d = cc (put-Own c s u o q, h) in
          subst (λ x. P x (store.put_connector_cursor c s).1) e (put_keeps c c s p)
      | inr (e, q) ↦ put_keeps d c s (stored d (sym (laws.put_refused c s e j k q) ∙ h))
    ]

    pub ingest-Stored :
        (d : Document) (n : ℕ) (s : S) → Stored P s → Stored P (store.ingest_batch d n s).1
    ingest-Stored d n s stored c h =
        ingest_keeps c d n s (stored c (sym (laws.ingest_read d n s j k) ∙ h))
