-- ===== src/Repo/Properties/Laws.antt =====
-- What the methods for properties of internal/repo/store.go leave in the table.
use tinydm.Repo.Properties.Table.{
  value_of, last_value, or_else, value_in-delete, put, upsert_property-eq-put, has_document-put,
  put_all, value_of-put_all,
}
use tinydm.Prelude.{
  ℕ, ◌+◌, String, ◌≡◌, refl, ◌∙◌, true, ◌&&◌, not, none, List, [], ◌∷◌, arith, if◌then◌else◌, ◌==◌,
}
use tinydm.Sql.{ok, Engine, Conn, ◌>>◌}
use tinydm.Sql.Like.{like}
use tinydm.Sql.Quiet.{statement_quiet, Quiet, transaction_quiet, ticked}
use tinydm.Sql.Table.{delete_rows}
use tinydm.Schema.{Tables}
use tinydm.Repo.Properties.{
  upsert_properties, clear_properties, set_document_properties, merge_document_properties,
}
use tinydm.Repo.Tags.Laws.{has_document}

upsert_properties-Quiet :
    (d : String) (props : List (String × String)) (c : Conn Tables)
    → Quiet c
    → has_document d c.tables ≡ true
    → (n : ℕ) × (upsert_properties d props c
        ≡ (ok tt, record c { tables = put_all d props c.tables; tick = n }))
unfolding upsert_properties put_all
upsert_properties-Quiet d [] c q h = (c.tick, refl)
upsert_properties-Quiet d ((k, v) ∷ props) c q h = rw (upsert_property-eq-put d k v c q h) (
    upsert_properties-Quiet d props (record c { tables = put d k v c.tables; tick = c.tick + 1 }) q
      (has_document-put d k v d c.tables ∙ h))

abbrev pub cleared : Engine → String → Tables → Tables
cleared engine d t = record t {
  document_properties =
      delete_rows (λ r. r.document_id == d && not (like engine "sys.%" r.key))
        t.document_properties;
}

clear_properties_quiet :
    (d : String) (c : Conn Tables)
    → (c.world c.tick).fault ≡ none
    → clear_properties d c
      ≡ (ok tt, record c { tables = cleared c.engine d c.tables; tick = c.tick + 1 })
unfolding clear_properties
clear_properties_quiet d c q = statement_quiet c (λ engine _ t. (ok tt, cleared engine d t)) q

pub set_document_properties-Quiet :
    (d : String) (props : List (String × String)) (c : Conn Tables)
    → Quiet c
    → has_document d c.tables ≡ true
    → (n : ℕ) × (set_document_properties d props c
        ≡ (ok tt, record c { tables = put_all d props (cleared c.engine d c.tables); tick = n }))
unfolding set_document_properties
set_document_properties-Quiet d props c q h =
    let t = cleared c.engine d c.tables in
    let (n, e) =
      upsert_properties-Quiet d props (record c { tables = t; tick = c.tick + 1 + 1 }) q h in
    (
      n + 1,
      transaction_quiet c (clear_properties d >> upsert_properties d props) tt
          (record c { tables = put_all d props t; tick = n }) (q c.tick)
          (rw (clear_properties_quiet d (ticked c) (q (c.tick + 1))) e) (q n),
    )

-- `set_document_properties` for a document that is a row, where the driver does not fail, succeeds.
-- The document then has each property of the argument, reserved or not, with the value of the
-- argument; of the others it keeps those whose key is LIKE 'sys.%', with their values; and the
-- properties of every other document are as before.
pub set_document_properties_lem :
    (d : String) (props : List (String × String)) (c : Conn Tables) (e h : String)
    → Quiet c
    → has_document d c.tables ≡ true
    → ((set_document_properties d props c).0 ≡ ok tt)
      × (value_of e h (set_document_properties d props c).1.tables ≡ (
          if e == d
          then or_else
              (last_value h props)
              (if like c.engine "sys.%" h then value_of e h c.tables else none)
          else value_of e h c.tables))
set_document_properties_lem d props c e h q doc =
    let (n, same) = set_document_properties-Quiet d props c q doc in
    rw same (
      refl,
      ground (
        arith,
        value_of-put_all d props e h (cleared c.engine d c.tables),
        value_in-delete c.engine d e h c.tables.document_properties,
      ),
    )

-- `merge_document_properties` for a document that is a row, where the driver does not fail,
-- succeeds; the document then has the properties of the argument, keeps all its others, and no
-- other document changes.
pub merge_document_properties_lem :
    (d : String) (props : List (String × String)) (c : Conn Tables) (e h : String)
    → Quiet c
    → has_document d c.tables ≡ true
    → ((merge_document_properties d props c).0 ≡ ok tt)
      × (value_of e h (merge_document_properties d props c).1.tables ≡ (
          if e == d
          then or_else (last_value h props) (value_of e h c.tables)
          else value_of e h c.tables))
unfolding merge_document_properties
merge_document_properties_lem d [] c e h q doc = (refl, ground arith)
merge_document_properties_lem d (p ∷ props) c e h q doc =
    let (n, same) = upsert_properties-Quiet d (p ∷ props) (ticked c) q doc in
    let whole =
      transaction_quiet c (upsert_properties d (p ∷ props)) tt
        (record c { tables = put_all d (p ∷ props) c.tables; tick = n }) (q c.tick) same (q n) in
    rw whole (refl, value_of-put_all d (p ∷ props) e h c.tables)
