-- ===== src/Api/Properties.antt =====
-- internal/api/properties.go
pub mod Laws
use Prim.Native.String.{◌++◌}
use tinydm.Prelude.{String, Bool, true, false, Option, none, some, List, [], ◌∷◌, if◌then◌else◌}
use tinydm.Prelude.Texts.{has_prefix}
use tinydm.Sql.{Result, ok, err, Conn, ◌>>=◌, ◌>>◌}
use tinydm.Schema.{Tables}
use tinydm.Repo.Properties.{
  get_document_properties, set_document_property, delete_document_property, set_document_properties,
}
use tinydm.Api.{
  Request, Reply, json, error_body, no_content, properties, Handler, with_value, answer, internal,
}

abbrev reserved : Reply
reserved = error_body 403 "property keys prefixed with \"sys.\" are reserved"

-- `PropertyHandler.List`
unfoldable pub list : Handler
list r c =
    with_value r.document
      (λ doc c.
        answer internal (λ found. json 200 (properties found)) (get_document_properties doc.id c))
      c

-- The loop of `Replace`
unfoldable pub filtered : List (String × String) → List (String × String)
filtered [] = []
filtered ((key, value) ∷ props) =
    let rest = filtered props in if has_prefix key "sys." then rest else (key, value) ∷ rest

-- `PropertyHandler.Replace`
unfoldable pub replace : (String → Result (Unit {0})) → Option (List (String × String)) → Handler
replace lock body r c =
    with_value r.document
      (λ doc c. elim (lock ("doc:" ++ doc.id)) [
        | err e ↦ (error_body 503 "could not acquire lock", c)
        | ok _ ↦ elim body [
          | none ↦ (error_body 400 "invalid request body", c)
          | some props ↦
              answer internal (λ found. json 200 (properties found))
                ((set_document_properties doc.id (filtered props) >> get_document_properties doc.id)
                  c)
        ]
      ])
      c

-- `PropertyHandler.Set`
unfoldable pub set : Option String → Handler
set body r c =
    let key = r.url_param "key" in
    if has_prefix key "sys." then (reserved, c) else elim body [
      | none ↦ (error_body 400 "invalid request body", c)
      | some value ↦
          with_value r.document
            (λ doc c.
              answer internal (λ _. json 200 (properties ((key, value) ∷ [])))
                (set_document_property doc.id key value c))
            c
    ]

-- `PropertyHandler.Delete`
unfoldable pub delete : Handler
delete r c =
    let key = r.url_param "key" in
    if has_prefix key "sys."
    then (reserved, c)
    else with_value r.document
        (λ doc c. answer internal (λ _. no_content) (delete_document_property doc.id key c)) c
