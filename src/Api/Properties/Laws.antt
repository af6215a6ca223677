-- ===== src/Api/Properties/Laws.antt =====
-- `PropertyHandler.Replace` of internal/api/properties.go: what becomes of reserved properties.
use Prim.Native.String.{◌++◌}
use tinydm.Prelude.{
  String, ◌≡◌, true, Option, none, some, List, [], ◌∷◌, arith, if◌then◌else◌, ◌==◌, eq_iff,
  Bool-cases, inl, inr, ap, ◌∙◌, map, eq_self,
}
use tinydm.Prelude.Texts.{has_prefix}
use tinydm.Sql.{ok, Conn, Result, ◌>>◌}
use tinydm.Sql.Like.{like}
use tinydm.Sql.Like.Laws.{like_sys}
use tinydm.Sql.Quiet.{Quiet, ticked}
use tinydm.Sql.Table.{select_all}
use tinydm.Schema.{Document, Tables}
use tinydm.Repo.{order_by}
use tinydm.Repo.Properties.{set_document_properties, get_document_properties}
use tinydm.Repo.Properties.Laws.{set_document_properties-Quiet, set_document_properties_lem}
use tinydm.Repo.Properties.Table.{value_of, last_value, or_else}
use tinydm.Repo.Tags.Laws.{has_document}
use tinydm.Api.{Request, json, properties, answer, internal, answer-then}
use tinydm.Api.Properties.{filtered, replace}

-- The last value with the key, where the key may be written.
last_value-filtered :
    (h : String) (props : List (String × String))
    → last_value h (filtered props) ≡ (if has_prefix h "sys." then none else last_value h props)
unfolding filtered
last_value-filtered h [] = ground arith
last_value-filtered h ((k, v) ∷ props) = elim (Bool-cases (h == k)) [
  | inl same ↦
      ground
        (arith, last_value-filtered h props, ap (λ t. has_prefix t "sys.") ((eq_iff h k).0 same))
  | inr other ↦ ground (arith, last_value-filtered h props)
]

listed :
    (d : String) (x : Conn Tables)
    → (x.world x.tick).fault ≡ none
    → (found : List (String × String)) × (get_document_properties d x ≡ (ok found, ticked x))
unfolding get_document_properties
listed d x quiet = (
  map (λ r. (r.key, r.value))
      (order_by (λ r s. x.engine.text_le r.key s.key)
        (select_all (λ r. r.document_id == d) x.tables.document_properties)),
  ground arith,
)

replaced :
    (lock : String → Result (Unit {0})) (props : List (String × String)) (r : Request)
    (d : Document) (c : Conn Tables)
    → r.document ≡ some d
    → lock ("doc:" ++ d.id) ≡ ok tt
    → replace lock (some props) r c
      ≡ answer internal
          (λ found. json 200 (properties found))
          ((set_document_properties d.id (filtered props) >> get_document_properties d.id) c)
unfolding replace
replaced lock props r d c inside taken = ground arith

-- What `Replace` leaves of a property, by the properties of the body.
abbrev pub replaced_value : Conn Tables → String → String → List (String × String) → Option String
replaced_value c d h props =
    if has_prefix h "sys."
    then value_of d h c.tables
    else or_else (last_value h props)
        (if like c.engine "sys.%" h then value_of d h c.tables else none)

left_of :
    (c : Conn Tables) (d h : String) (props : List (String × String))
    → (if d == d
        then or_else
            (last_value h (filtered props))
            (if like c.engine "sys.%" h then value_of d h c.tables else none)
        else value_of d h c.tables)
      ≡ replaced_value c d h props
left_of c d h props = elim (Bool-cases (has_prefix h "sys.")) [
  | inl reserved ↦
      ground (arith, eq_self d, last_value-filtered h props, like_sys c.engine h reserved)
  | inr free ↦ ground (arith, eq_self d, last_value-filtered h props)
]

-- `Replace` on a document that is a row, with the lock taken and a valid body, where the driver does
-- not fail, replies 200. A property whose key begins with "sys." is then as it was, whatever the
-- body says; of the others the document has those of the body, and keeps those whose key is LIKE
-- 'sys.%', which on SQLite are also keys such as "SYS.x".
pub replace_properties_lem :
    (lock : String → Result (Unit {0})) (props : List (String × String)) (r : Request)
    (d : Document) (c : Conn Tables) (h : String)
    → Quiet c
    → r.document ≡ some d
    → has_document d.id c.tables ≡ true
    → lock ("doc:" ++ d.id) ≡ ok tt
    → ((found : List (String × String)) × ((replace lock (some props) r c).0
          ≡ json 200 (properties found)))
      × (value_of d.id h (replace lock (some props) r c).1.tables ≡ replaced_value c d.id h props)
replace_properties_lem lock props r d c h q inside doc taken =
    let (n, after) = set_document_properties-Quiet d.id (filtered props) c q doc in
    let x = (set_document_properties d.id (filtered props) c).1 in
    let (found, read) = listed d.id x (rw after (q n)) in
    let (done, stored) = set_document_properties_lem d.id (filtered props) c d.id h q doc in
    let full =
      replaced lock props r d c inside taken
      ∙ answer-then (set_document_properties d.id (filtered props)) (get_document_properties d.id)
          (λ found. json 200 (properties found)) c x (ticked x) found (λ i. (done i, x)) read in
    (
      (found, ap (λ y. y.0) full),
      ap (λ y. value_of d.id h y.1.tables) full ∙ (stored ∙ left_of c d.id h props),
    )
