-- ===== src/Repo/Versions/Restore.antt =====
-- What `restore_document_version` of internal/repo/store.go does, and that it can be undone.
use tinydm.Prelude.{
  ◌+◌, String, ◌≡◌, refl, false, ◌&&◌, Option, none, some, [], ◌∷◌, ◌++◌, arith, head?,
  if◌then◌else◌, ◌==◌,
}
use tinydm.Sql.{ok, Conn}
use tinydm.Sql.Quiet.{Quiet, ticked}
use tinydm.Sql.Table.{select_all}
use tinydm.Schema.{Document, DocumentVersion, Tables}
use tinydm.Repo.Versions.{get_document_version, restore_document_version}
use tinydm.Repo.Versions.Update.{update-Quiet, find_updated}
use tinydm.Repo.Versions.Snapshot.{
  find_document, version_taken, snapshot_of, now_at, Content, replaced, name_taken, update_with,
  get_document_quiet,
}

-- The version with the identifier that belongs to the document.
abbrev pub find_version : String → String → Tables → Option DocumentVersion
find_version version_id id t =
    head? (select_all (λ v. v.id == version_id && v.document_id == id) t.document_versions)

-- The content of a version, under a document's name.
abbrev pub content_of : String → DocumentVersion → Content
content_of name v = record {
  name = name;
  content_type = v.content_type;
  size = v.size;
  checksum = v.checksum;
  storage_key = v.storage_key;
}

get_version_quiet :
    (version_id id : String) (c : Conn Tables)
    → (c.world c.tick).fault ≡ none
    → get_document_version version_id id c ≡ (ok (find_version version_id id c.tables), ticked c)
unfolding get_document_version
get_version_quiet version_id id c q = ground arith

module _ (snapshot_id id version_id by : String) (c : Conn Tables) (v : DocumentVersion)
    (d : Document) where
  pub restore-Quiet :
      Quiet c
      → find_version version_id id c.tables ≡ some v
      → find_document id c.tables ≡ some d
      → restore_document_version snapshot_id id version_id by c
        ≡ update_with snapshot_id id (content_of d.name v) by (ticked (ticked c))
  unfolding restore_document_version
  restore-Quiet q fv fd = ground (
    arith,
    get_version_quiet version_id id c (q c.tick),
    get_document_quiet id (ticked c) (q (c.tick + 1)),
  )

-- The moment of the UPDATE in a restore.
abbrev pub restored_at : Conn Tables → String
restored_at c = now_at c (c.tick + 1 + 1 + 1 + 1 + 1)

-- The moment of the snapshot in a restore.
abbrev pub saved_at : Conn Tables → String
saved_at c = now_at c (c.tick + 1 + 1 + 1)

-- `restore_document_version` for a live document and a version of it, where the driver does not
-- fail, the snapshot's identifier is new and no other document of the bucket has the document's own
-- name: it returns the document with the version's content, its own name and the next version
-- number; the versions gain the snapshot of the document as it was; and every other document is
-- found as before.
pub restore_document_version_lem :
    (snapshot_id id version_id by : String) (c : Conn Tables) (v : DocumentVersion) (d : Document)
    (j : String)
    → Quiet c
    → find_version version_id id c.tables ≡ some v
    → find_document id c.tables ≡ some d
    → version_taken snapshot_id c.tables ≡ false
    → name_taken id (content_of d.name v) c.tables ≡ false
    → let (r, c') = restore_document_version snapshot_id id version_id by c in
      let d' = replaced (content_of d.name v) (restored_at c) d in
      (r ≡ ok (some d'))
      × (c'.tables.document_versions
          ≡ c.tables.document_versions ++ snapshot_of snapshot_id by (saved_at c) d ∷ [])
      × (find_document j c'.tables ≡ (if j == id then some d' else find_document j c.tables))
restore_document_version_lem snapshot_id id version_id by c v d j q fv fd fresh free =
    let k = content_of d.name v in
    let s = ticked (ticked c) in
    rw (restore-Quiet snapshot_id id version_id by c v d q fv fd) (
      rw (update-Quiet snapshot_id id k by s d q fd fresh free) (
        refl,
        refl,
        find_updated snapshot_id id k by s d j (now_at s (s.tick + 1 + 1 + 1)) c.tables fd,
      ))
