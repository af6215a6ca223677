-- ===== src/Repo/Versions.antt =====
-- internal/repo/store.go: the versions of documents, and the operations that make them.
pub mod Snapshot
pub mod Update
pub mod Restore
pub mod Undo
use Prim.Native.String.{◌++◌ as append}
use tinydm.Prelude.{
  ℕ, ◌+◌, String, ◌&&◌, not, Option, none, some, List, [], ◌∷◌, ◌++◌, length, head?, any,
  if◌then◌else◌, ◌==◌, leb,
}
use tinydm.Sql.{
  Engine, Result, ok, err, driver, plain, wrap, pure, on_error, require, statement, query, ◌>>=◌,
  ◌>>◌,
}
use tinydm.Sql.Table.{select_all, update_live, any_row, update_clashes}
use tinydm.Schema.{Document, DocumentVersion, Tables, Store}
use tinydm.Repo.{PageOpts, validated, order_by, paged}
use tinydm.Repo.Documents.{get_document, same_columns}

-- The INSERT of `CreateDocumentVersion`
abbrev insert_version :
    String
    → String
    → ℕ
    → String
    → ℕ
    → String
    → String
    → String
    → Engine
    → String
    → Tables
    → Result (Unit {0}) × Tables
insert_version id document_id version content_type size checksum storage_key created_by engine now
      t =
    if any (λ v. v.id == id) t.document_versions
    then (err (driver (engine.unique_violation "document_versions.id")), t)
    else if not (any_row (λ d. d.id == document_id) t.documents)
    then (err (driver (engine.foreign_key_violation "document_versions.document_id")), t)
    else (
      ok tt,
      record t {
        document_versions =
            t.document_versions
            ++ record {
              id = id;
              document_id = document_id;
              version = version;
              content_type = content_type;
              size = size;
              checksum = checksum;
              storage_key = storage_key;
              created_by = created_by;
              created_at = now;
            }
              ∷ [];
      },
    )

-- `Row.Scan` reports a missing row as `sql.ErrNoRows`.
abbrev one_row : {A : Type 0} → Option A → Result A
one_row none = err (driver "sql: no rows in result set")
one_row (some a) = ok a

-- `CreateDocumentVersion`; the new identifier is the argument `id`.
unfoldable pub create_document_version :
    String → String → ℕ → String → ℕ → String → String → String → Store DocumentVersion
create_document_version id document_id version content_type size checksum storage_key created_by =
    do
      on_error (wrap "create document version") (
          statement (
            insert_version id document_id version content_type size checksum storage_key
              created_by))
      on_error (wrap "scan version") (
          statement
            (λ _ _ t. (one_row (head? (select_all (λ v. v.id == id) t.document_versions)), t)))

-- `ListDocumentVersions`, the newest version first
unfoldable pub list_document_versions : String → PageOpts → Store (List DocumentVersion × ℕ)
list_document_versions document_id opts = do
  let page = validated opts
  total ←
      on_error (wrap "count versions")
        (query (λ _ t. length (select_all (λ v. v.document_id == document_id) t.document_versions)))
  rows ← on_error (wrap "list versions") (
      query (λ _ t. paged page (
        order_by (λ v w. leb w.version v.version)
          (select_all (λ v. v.document_id == document_id) t.document_versions))))
  pure (rows, total)

-- `GetDocumentVersion`
unfoldable pub get_document_version : String → String → Store (Option DocumentVersion)
get_document_version version_id document_id = on_error (wrap "get document version") (
    query (λ _ t.
      head?
        (select_all (λ v. v.id == version_id && v.document_id == document_id) t.document_versions)))

abbrev replace_content : String → String → ℕ → String → String → String → Document → Document
replace_content name content_type size checksum storage_key now d = record d {
  name = name;
  content_type = content_type;
  size = size;
  checksum = checksum;
  storage_key = storage_key;
  version = d.version + 1;
  updated_at = now;
}

-- The UPDATE of `UpdateDocument`
abbrev set_document :
    String
    → String
    → String
    → ℕ
    → String
    → String
    → Engine
    → String
    → Tables
    → Result (Unit {0}) × Tables
set_document id name content_type size checksum storage_key engine now t =
    let f = replace_content name content_type size checksum storage_key now in
    if update_clashes (λ d. d.id == id) f same_columns t.documents
    then (err (driver (engine.unique_violation "documents.bucket_id, documents.name")), t)
    else (ok tt, record t { documents = update_live (λ d. d.id == id) f t.documents })

-- `UpdateDocument`; the identifier of the snapshot is the argument `version_id`.
unfoldable pub update_document :
    String → String → String → String → ℕ → String → String → String → Store (Option Document)
update_document version_id id name content_type size checksum storage_key updated_by = do
  current ← require (plain (append "document not found: " id)) (get_document id)
  snapshot ← on_error (wrap "snapshot version") (
      create_document_version version_id current.id current.version current.content_type
        current.size current.checksum current.storage_key updated_by)
  on_error (wrap "update document")
      (statement (set_document id name content_type size checksum storage_key))
  get_document id

-- `RestoreDocumentVersion`; `snapshot_id` is the identifier of the snapshot that the update makes.
unfoldable pub restore_document_version :
    String → String → String → String → Store (Option Document)
restore_document_version snapshot_id document_id version_id restored_by = do
  v ←
      require (plain (append "version not found: " version_id))
        (get_document_version version_id document_id)
  current ← require (plain (append "document not found: " document_id)) (get_document document_id)
  update_document snapshot_id document_id current.name v.content_type v.size v.checksum
      v.storage_key restored_by
