-- ===== src/Api/Documents/Laws.antt =====
-- `RestoreVersion` and `Download` of internal/api/documents.go.
use Prim.Native.String.{◌++◌}
use tinydm.Prelude.{String, ◌≡◌, ◌∙◌, ap, false, some, arith, if◌then◌else◌, eq_self}
use tinydm.Sql.{Result, ok, Conn}
use tinydm.Sql.Quiet.{Quiet}
use tinydm.Schema.{Document, DocumentVersion, Tables}
use tinydm.Repo.Versions.{restore_document_version}
use tinydm.Repo.Versions.Snapshot.{find_document, version_taken, replaced, name_taken}
use tinydm.Repo.Versions.Restore.{
  find_version, content_of, restored_at, restore_document_version_lem,
}
use tinydm.Api.{Request, json, one_document}
use tinydm.Api.Users.{principal_id}
use tinydm.Api.Documents.{restore_version}

restored_reply :
    (lock : String → Result (Unit {0})) (snapshot_id : String) (r : Request) (c : Conn Tables)
    (d d' : Document) (v : DocumentVersion)
    → r.document ≡ some d
    → r.version ≡ some v
    → lock ("doc:" ++ d.id) ≡ ok tt
    → (restore_document_version snapshot_id d.id v.id (principal_id r) c).0 ≡ ok (some d')
    → restore_version lock snapshot_id r c ≡ (
      json 200 (one_document (some d')),
      (restore_document_version snapshot_id d.id v.id (principal_id r) c).1,
    )
unfolding restore_version
restored_reply lock snapshot_id r c d d' v inside named taken done = ground arith

-- `RestoreVersion` with the lock taken, on a live document and a version of it, where the driver does not
-- fail, the snapshot's identifier is new and no other document of the bucket has the document's name,
-- replies 200 with the document that has the content of the version, its own name and the next
-- version number; and that is the document that is stored.
pub restore_version_lem :
    (lock : String → Result (Unit {0})) (snapshot_id : String) (r : Request) (c : Conn Tables)
    (d : Document) (v : DocumentVersion)
    → Quiet c
    → r.document ≡ some d
    → r.version ≡ some v
    → lock ("doc:" ++ d.id) ≡ ok tt
    → find_version v.id d.id c.tables ≡ some v
    → find_document d.id c.tables ≡ some d
    → version_taken snapshot_id c.tables ≡ false
    → name_taken d.id (content_of d.name v) c.tables ≡ false
    → ((restore_version lock snapshot_id r c).0
        ≡ json 200 (one_document (some (replaced (content_of d.name v) (restored_at c) d))))
      × (find_document d.id (restore_version lock snapshot_id r c).1.tables
          ≡ some (replaced (content_of d.name v) (restored_at c) d))
restore_version_lem lock snapshot_id r c d v q inside named taken fv fd fresh free =
    let (done, snapshots, stored) =
      restore_document_version_lem snapshot_id d.id v.id (principal_id r) c v d d.id q fv fd fresh
        free in
    let d' = replaced (content_of d.name v) (restored_at c) d in
    let reply = restored_reply lock snapshot_id r c d d' v inside named taken done in
    (
      ap (λ a. a.0) reply,
      ap (λ a. find_document d.id a.1.tables) reply
          ∙ (stored ∙ ap (λ b. if b then some d' else find_document d.id c.tables) (eq_self d.id)),
    )
