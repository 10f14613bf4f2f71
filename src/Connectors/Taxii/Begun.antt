-- ===== src/Connectors/Taxii/Begun.antt =====
-- How `sync_collection` begins: with the stored cursor of the collection, or a new one.
use brolga.Prelude.{ℕ, zero, suc, ◌≡◌, refl, Option, none, some}
use brolga.Prelude.Results.{Result, ok, err}
use brolga.Connectors.Cursor.{ConnectorCursor, starting}
use brolga.Connectors.Errors.{ConnectorError}
use brolga.Connectors.Sync.{Outcome}
use brolga.Connectors.Sync.Rounds.{Returns, Leads, rounds-Returns}
use brolga.Connectors.Taxii.{Collection, Syncing, taxii_connector, round, first_round, begin}

module _ {S : Type 0} (c : Collection S) (P : Outcome S → Type 0) (Inv : ℕ → Syncing S → Type 0)
    (stop : (st : Syncing S) → Inv zero st → ⊥)
    (keeps : (n : ℕ) (st : Syncing S) → Inv (suc n) st → Leads P (Inv n) (round c st)) where
  pub begin-Returns :
      (s : S) (found : Result ConnectorError (Option ConnectorCursor))
      → ((e : ConnectorError) → P (err e, s))
      → Inv
          (suc c.options.max_pages)
          (first_round c (starting taxii_connector c.feed.collection_id (c.to_rfc3339 c.now)) s)
      → ((d : ConnectorCursor)
          → found ≡ ok (some d)
          → Inv (suc c.options.max_pages) (first_round c d s))
      → Returns P (begin c found s)
  begin-Returns s (err e) refused fresh old = refused e
  begin-Returns s (ok none) refused fresh old =
      rounds-Returns P Inv (round c) stop keeps (suc c.options.max_pages) _ fresh
  begin-Returns s (ok (some d)) refused fresh old =
      rounds-Returns P Inv (round c) stop keeps (suc c.options.max_pages) _ (old d refl)
