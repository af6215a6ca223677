-- ===== src/Repo/Properties.antt =====
-- internal/repo/store.go: the properties of documents. A Go map is the list of its entries, in the
-- order in which `range` meets them.
pub mod Table
pub mod Laws
use tinydm.Prelude.{
  String, Bool, true, false, ◌&&◌, not, List, [], ◌∷◌, ◌++◌, map, any, if◌then◌else◌, ◌==◌,
}
use tinydm.Sql.{
  Engine, Result, ok, err, driver, wrap, pure, on_error, statement, query, exec, transaction, ◌>>◌,
}
use tinydm.Sql.Like.{like}
use tinydm.Sql.Table.{select_all, update_all, delete_rows, any_row}
use tinydm.Schema.{Property, Tables, Store}
use tinydm.Repo.{order_by}

abbrev is_property : String → String → Property → Bool
is_property document_id key r = r.document_id == document_id && r.key == key

-- `GetDocumentProperties`
unfoldable pub get_document_properties : String → Store (List (String × String))
get_document_properties document_id = on_error (wrap "get properties") (
    query (λ engine t.
      map (λ r. (r.key, r.value))
        (order_by (λ r s. engine.text_le r.key s.key)
          (select_all (λ r. r.document_id == document_id) t.document_properties))))

-- INSERT … ON CONFLICT(document_id, key) DO UPDATE SET value=excluded.value
unfoldable pub upsert_property :
    String → String → String → Engine → String → Tables → Result (Unit {0}) × Tables
upsert_property document_id key value engine now t =
    if any (is_property document_id key) t.document_properties
    then (
      ok tt,
      record t {
        document_properties =
            update_all (is_property document_id key) (λ r. record r { value = value })
              t.document_properties;
      },
    )
    else if not (any_row (λ d. d.id == document_id) t.documents)
    then (err (driver (engine.foreign_key_violation "document_properties.document_id")), t)
    else (
      ok tt,
      record t {
        document_properties =
            t.document_properties
            ++ record { document_id = document_id; key = key; value = value } ∷ [];
      },
    )

-- `SetDocumentProperty`
unfoldable pub set_document_property : String → String → String → Store (Unit {0})
unfolding upsert_property
set_document_property document_id key value = statement (upsert_property document_id key value)

-- `DeleteDocumentProperty`
unfoldable pub delete_document_property : String → String → Store (Unit {0})
delete_document_property document_id key = exec (λ _ _ t. record t {
  document_properties = delete_rows (is_property document_id key) t.document_properties;
})

-- The loop of `SetDocumentProperties` and of `MergeDocumentProperties`
unfoldable pub upsert_properties : String → List (String × String) → Store (Unit {0})
upsert_properties document_id [] = pure tt
upsert_properties document_id ((key, value) ∷ props) =
    statement (upsert_property document_id key value) >> upsert_properties document_id props

-- DELETE … WHERE document_id=? AND key NOT LIKE 'sys.%'
unfoldable pub clear_properties : String → Store (Unit {0})
clear_properties document_id = exec (λ engine _ t. record t {
  document_properties =
      delete_rows (λ r. r.document_id == document_id && not (like engine "sys.%" r.key))
        t.document_properties;
})

-- `SetDocumentProperties`
unfoldable pub set_document_properties : String → List (String × String) → Store (Unit {0})
set_document_properties document_id props =
    transaction (clear_properties document_id >> upsert_properties document_id props)

-- `MergeDocumentProperties`
unfoldable pub merge_document_properties : String → List (String × String) → Store (Unit {0})
merge_document_properties document_id [] = pure tt
merge_document_properties document_id (p ∷ props) =
    transaction (upsert_properties document_id (p ∷ props))
