-- ===== src/Repo/Documents.antt =====
-- internal/repo/store.go: documents.
pub mod Laws
use Prim.Native.String.{◌++◌}
use tinydm.Prelude.{
  ℕ, ◌+◌, String, Bool, ◌&&◌, not, Option, List, [], ◌∷◌, length, if◌then◌else◌, ◌==◌,
}
use tinydm.Sql.{
  Engine, Result, ok, err, driver, wrap, pure, on_error, statement, query, exec, ◌>>=◌, ◌>>◌,
}
use tinydm.Sql.Like.{like}
use tinydm.Sql.Table.{select, update_live, mark_deleted, insert, any_row, update_clashes}
use tinydm.Sql.Table.Find.{find}
use tinydm.Schema.{Document, Tables, Store}
use tinydm.Repo.{PageOpts, validated, order_by, paged, wrap_constraint}

-- `GetDocument`, with `scanDocument`
unfoldable pub get_document : String → Store (Option Document)
get_document id = on_error (wrap "scan document") (query (λ _ t. find (λ d. d.id) id t.documents))

-- The INSERT of `CreateDocument`: `id` is the primary key, `bucket_id` and `name` are UNIQUE
-- together, also among deleted rows, and the bucket is a row, deleted or not. The version starts
-- at the column's default, 1.
abbrev insert_document :
    String
    → String
    → String
    → String
    → ℕ
    → String
    → String
    → String
    → Engine
    → String
    → Tables
    → Result (Unit {0}) × Tables
insert_document id bucket_id name content_type size checksum storage_key created_by engine now t =
    if any_row (λ d. d.id == id) t.documents
    then (err (driver (engine.unique_violation "documents.id")), t)
    else if any_row (λ d. d.bucket_id == bucket_id && d.name == name) t.documents
    then (err (driver (engine.unique_violation "documents.bucket_id, documents.name")), t)
    else if not (any_row (λ b. b.id == bucket_id) t.buckets)
    then (err (driver (engine.foreign_key_violation "documents.bucket_id")), t)
    else (
      ok tt,
      record t {
        documents =
            insert
              (record {
                id = id;
                bucket_id = bucket_id;
                name = name;
                content_type = content_type;
                size = size;
                checksum = checksum;
                storage_key = storage_key;
                version = 1;
                created_by = created_by;
                created_at = now;
                updated_at = now;
              })
              t.documents;
      },
    )

-- `CreateDocument`; the new identifier is the argument `id`.
unfoldable pub create_document :
    String → String → String → String → ℕ → String → String → String → Store (Option Document)
unfolding get_document
create_document id bucket_id name content_type size checksum storage_key created_by = do
  on_error (wrap_constraint "document" name) (
      statement
        (insert_document id bucket_id name content_type size checksum storage_key created_by))
  get_document id

-- The columns that are UNIQUE together.
abbrev pub same_columns : Document → Document → Bool
same_columns d e = d.bucket_id == e.bucket_id && d.name == e.name

-- A page of the live documents with a property, by name, and their number: what `ListDocuments`
-- and `SearchDocuments` do, with the texts of their errors.
abbrev pub page_documents :
    String → String → PageOpts → (Engine → Document → Bool) → Store (List Document × ℕ)
page_documents counting listing page p = do
  total ← on_error (wrap counting) (query (λ engine t. length (select (p engine) t.documents)))
  rows ← on_error (wrap listing) (
      query (λ engine t.
        paged page
          (order_by (λ d e. engine.text_le d.name e.name) (select (p engine) t.documents))))
  pure (rows, total)

-- `ListDocuments`
unfoldable pub list_documents : String → PageOpts → Store (List Document × ℕ)
list_documents bucket_id opts =
    page_documents "count documents" "list documents" (validated opts)
      (λ _ d. d.bucket_id == bucket_id)

-- `SearchDocuments`
unfoldable pub search_documents : String → String → PageOpts → Store (List Document × ℕ)
search_documents bucket_id text opts =
    page_documents "count search documents" "search documents" (validated opts)
      (λ engine d. d.bucket_id == bucket_id && like engine ("%" ++ (text ++ "%")) d.name)

-- `RenameDocument`: the name alone, with no snapshot.
abbrev set_name : String → String → Engine → String → Tables → Result (Unit {0}) × Tables
set_name id name engine now t =
    let f = λ (d : Document). record d { name = name; updated_at = now } in
    if update_clashes (λ d. d.id == id) f same_columns t.documents
    then (err (driver (engine.unique_violation "documents.bucket_id, documents.name")), t)
    else (ok tt, record t { documents = update_live (λ d. d.id == id) f t.documents })

unfoldable pub rename_document : String → String → Store (Option Document)
unfolding get_document
rename_document id name = do
  on_error (wrap "rename document") (statement (set_name id name))
  get_document id

-- `DeleteDocument`
unfoldable pub delete_document : String → Store (Unit {0})
delete_document id =
    exec (λ _ now t. record t { documents = mark_deleted (λ d. d.id == id) now t.documents })

-- `CountDocumentsInBucket`
unfoldable count_documents_in_bucket : String → Store ℕ
count_documents_in_bucket bucket_id =
    query (λ _ t. length (select (λ d. d.bucket_id == bucket_id) t.documents))

-- `CountBucketsInProject`
unfoldable count_buckets_in_project : String → Store ℕ
count_buckets_in_project project_id =
    query (λ _ t. length (select (λ b. b.project_id == project_id) t.buckets))

-- `CountDocumentsInProject`: the join on buckets does not ask whether the bucket is deleted. A
-- bucket's identifier is its primary key, so a document meets one bucket at most.
unfoldable count_documents_in_project : String → Store ℕ
count_documents_in_project project_id = query (λ _ t. length (
    select (λ d. any_row (λ b. b.id == d.bucket_id && b.project_id == project_id) t.buckets)
      t.documents))

total_size : List Document → ℕ
total_size [] = 0
total_size (d ∷ docs) = d.size + total_size docs

-- `SumDocumentSizeInBucket`
unfoldable sum_document_size_in_bucket : String → Store ℕ
unfolding total_size
sum_document_size_in_bucket bucket_id =
    query (λ _ t. total_size (select (λ d. d.bucket_id == bucket_id) t.documents))
