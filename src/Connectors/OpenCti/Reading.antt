-- ===== src/Connectors/OpenCti/Reading.antt =====
-- What `sync_opencti` makes of a page, and where it reads the next.
use brolga.Prelude.{◌≡◌, sym, ap, Option, none, some, Text, codes, arith}
use brolga.Prelude.Results.{ok, bind-bind-ok}
use brolga.Model.Bounded.{short_text, media_type}
use brolga.Connectors.Sync.Publisher.{bounded_publisher}
use brolga.Connectors.Sync.{Document, checked}
use brolga.Connectors.OpenCti.{Polling, OpenCtiPage, moved, document_of}

-- The document made of a page is of its body.
pub document_of-bytes :
    {S : Type 0} (c : Polling S) (page : OpenCtiPage) (d : Document)
    → document_of c page ≡ ok d
    → d.bytes ≡ page.body
unfolding document_of
document_of-bytes c page d h =
    let (m, p, e) =
      bind-bind-ok (checked page.url (media_type (codes "application/stix+json")))
        (checked page.url (short_text (bounded_publisher c.source.name)))
        (λ (m : Text) (p : Text). record {
          bytes = page.body;
          media_type = m;
          publisher = p;
          retrieved_at = c.now;
        })
        d h in
    sym (ap (λ (x : Document). x.bytes) e)

-- The next page is asked for at the end cursor of the page before.
pub moved-some :
    (end_cursor last : Option Text) (next : Text)
    → moved end_cursor last ≡ some next
    → end_cursor ≡ some next
unfolding moved
moved-some none last next h = cc
moved-some (some e) none next h = h
moved-some (some e) (some l) next h = ground (arith, h)
