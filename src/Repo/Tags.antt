-- ===== src/Repo/Tags.antt =====
-- internal/repo/store.go: the tags of documents.
pub mod Laws
use tinydm.Prelude.{
  ℕ, String, Bool, ◌&&◌, not, List, [], ◌∷◌, ◌++◌, map, length, any, if◌then◌else◌, ◌==◌,
}
use tinydm.Sql.{
  Engine, Result, ok, err, driver, wrap, pure, on_error, statement, query, exec, transaction, ◌>>=◌,
  ◌>>◌,
}
use tinydm.Sql.Table.{select, select_all, delete_rows, any_row}
use tinydm.Schema.{Document, Tag, Tables, Store}
use tinydm.Repo.{PageOpts, validated, order_by, paged}
use tinydm.Repo.Documents.{page_documents}

abbrev is_tag : String → String → Tag → Bool
is_tag document_id tag r = r.document_id == document_id && r.tag == tag

-- `ListDocumentTags`
unfoldable pub list_document_tags : String → Store (List String)
list_document_tags document_id = on_error (wrap "list tags") (
    query (λ engine t.
      order_by engine.text_le
        (map (λ r. r.tag) (select_all (λ r. r.document_id == document_id) t.document_tags))))

-- INSERT … ON CONFLICT DO NOTHING: the document and the tag are the primary key.
unfoldable pub insert_tag : String → String → Engine → String → Tables → Result (Unit {0}) × Tables
insert_tag document_id tag engine now t =
    if any (is_tag document_id tag) t.document_tags
    then (ok tt, t)
    else if not (any_row (λ d. d.id == document_id) t.documents)
    then (err (driver (engine.foreign_key_violation "document_tags.document_id")), t)
    else (
      ok tt,
      record t {
        document_tags = t.document_tags ++ record { document_id = document_id; tag = tag } ∷ [];
      },
    )

-- `AddDocumentTag`
unfoldable pub add_document_tag : String → String → Store (Unit {0})
unfolding insert_tag
add_document_tag document_id tag = statement (insert_tag document_id tag)

-- `RemoveDocumentTag`
unfoldable pub remove_document_tag : String → String → Store (Unit {0})
remove_document_tag document_id tag =
    exec
      (λ _ _ t. record t { document_tags = delete_rows (is_tag document_id tag) t.document_tags })

-- The loop of `SetDocumentTags`
unfoldable pub insert_tags : String → List String → Store (Unit {0})
insert_tags document_id [] = pure tt
insert_tags document_id (tag ∷ tags) =
    let rest = insert_tags document_id tags in
    if tag == "" then rest else statement (insert_tag document_id tag) >> rest

unfoldable pub clear_tags : String → Store (Unit {0})
clear_tags document_id = exec (λ _ _ t. record t {
  document_tags = delete_rows (λ r. r.document_id == document_id) t.document_tags;
})

-- `SetDocumentTags`
unfoldable pub set_document_tags : String → List String → Store (Unit {0})
set_document_tags document_id tags =
    transaction (clear_tags document_id >> insert_tags document_id tags)

-- `ListDocumentsByTag`: the join on the tag's rows. The document and the tag are the primary key of
-- those rows, so a document meets one at most.
abbrev tagged : String → String → Tables → List Document
tagged bucket_id tag t =
    select (λ d. d.bucket_id == bucket_id && any (is_tag d.id tag) t.document_tags) t.documents

unfoldable pub list_documents_by_tag : String → String → PageOpts → Store (List Document × ℕ)
list_documents_by_tag bucket_id tag opts = do
  let page = validated opts
  total ← on_error (wrap "count documents by tag") (query (λ _ t. length (tagged bucket_id tag t)))
  rows ← on_error (wrap "list documents by tag") (
      query (λ engine t.
        paged page (order_by (λ d e. engine.text_le d.name e.name) (tagged bucket_id tag t))))
  pure (rows, total)
