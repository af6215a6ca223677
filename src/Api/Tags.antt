-- ===== src/Api/Tags.antt =====
-- internal/api/tags.go. `lock` is what `Locker.Lock` gives for a key.
pub mod Laws
use tinydm.Prelude.Texts.{trim_space}
use Prim.Native.Char.{Char, code}
use Prim.Native.String.{String, ◌++◌}
use tinydm.Prelude.{
  ℕ, Bool, true, false, ◌&&◌, ◌||◌, Option, none, some, List, [], ◌∷◌, eqb, leb, if◌then◌else◌,
  ◌==◌,
}
use tinydm.Sql.{Result, ok, err, Conn, ◌>>=◌, ◌>>◌}
use tinydm.Schema.{Tables}
use tinydm.Repo.Tags.{list_document_tags, set_document_tags, add_document_tag, remove_document_tag}
use tinydm.Api.{
  Request, Reply, json, error_body, no_content, tags, Handler, with_value, answer, internal,
}

-- The loop of `Replace`
unfoldable pub clean : List String → List String
clean [] = []
clean (t ∷ texts) =
    let rest = clean texts in if trim_space t == "" then rest else trim_space t ∷ rest

-- `TagHandler.List`
unfoldable pub list : Handler
list r c =
    with_value r.document
      (λ doc c. answer internal (λ found. json 200 (tags found)) (list_document_tags doc.id c)) c

-- `TagHandler.Replace`
unfoldable pub replace : (String → Result (Unit {0})) → Option (List String) → Handler
replace lock body r c =
    with_value r.document
      (λ doc c. elim (lock ("doc:" ++ doc.id)) [
        | err e ↦ (error_body 503 "could not acquire lock", c)
        | ok _ ↦ elim body [
          | none ↦ (error_body 400 "invalid request body", c)
          | some texts ↦
              answer internal (λ found. json 200 (tags found))
                ((set_document_tags doc.id (clean texts) >> list_document_tags doc.id) c)
        ]
      ])
      c

-- `TagHandler.Add`
unfoldable pub add : Handler
add r c =
    let tag = trim_space (r.url_param "tag") in
    if tag == ""
    then (error_body 400 "tag must not be empty", c)
    else with_value r.document
        (λ doc c.
          answer internal (λ found. json 200 (tags found))
            ((add_document_tag doc.id tag >> list_document_tags doc.id) c))
        c

-- `TagHandler.Remove`
unfoldable pub remove : Handler
remove r c =
    with_value r.document
      (λ doc c.
        answer internal (λ _. no_content) (remove_document_tag doc.id (r.url_param "tag") c))
      c
