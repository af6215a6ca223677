-- ===== src/Repo/Documents/Laws.antt =====
-- What `CreateDocument` of internal/repo/store.go leaves, where the driver does not fail.
use tinydm.Prelude.{◌+◌, String, ◌≡◌, refl, Bool, true, false, some, ◌&&◌, arith, ◌==◌}
use tinydm.Sql.{ok, Conn}
use tinydm.Sql.Quiet.{Quiet}
use tinydm.Sql.Table.{insert, any_row}
use tinydm.Sql.Table.Find.{find-insert_self}
use tinydm.Schema.{Document, Tables}
use tinydm.Repo.Documents.{get_document, create_document}

-- A row, deleted or not, has the identifier, or the bucket and the name.
abbrev pub id_taken : String → Tables → Bool
id_taken id t = any_row (λ d. d.id == id) t.documents

abbrev pub name_in_bucket : String → String → Tables → Bool
name_in_bucket bucket_id name t =
    any_row (λ d. d.bucket_id == bucket_id && d.name == name) t.documents

abbrev pub has_bucket : String → Tables → Bool
has_bucket id t = any_row (λ b. b.id == id) t.buckets

-- The document, as it is first stored.
abbrev pub first_version : Document → String → Document
first_version d now = record d { version = 1; created_at = now; updated_at = now }

abbrev pub with_document : Document → Tables → Tables
with_document d t = record t { documents = insert d t.documents }

module _ (d : Document) (c : Conn Tables) where
  abbrev new : Document
  new = first_version d (c.world c.tick).now

  pub create_document-Quiet :
      Quiet c
      → id_taken d.id c.tables ≡ false
      → name_in_bucket d.bucket_id d.name c.tables ≡ false
      → has_bucket d.bucket_id c.tables ≡ true
      → create_document d.id d.bucket_id d.name d.content_type d.size d.checksum d.storage_key
          d.created_by c
        ≡ (ok (some new), record c { tables = with_document new c.tables; tick = c.tick + 1 + 1 })
  unfolding create_document get_document
  create_document-Quiet q fresh free inside = ground (
    arith,
    q c.tick,
    q (c.tick + 1),
    find-insert_self (λ d. d.id) d.id new c.tables.documents fresh refl,
  )
