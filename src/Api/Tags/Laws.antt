-- ===== src/Api/Tags/Laws.antt =====
-- `TagHandler.Replace` of internal/api/tags.go: the tags that a document has after it.
use tinydm.Repo.{order_by}
use tinydm.Sql.{◌>>◌, ok, Conn, Result}
use tinydm.Prelude.{
  ◌∙◌, map, ap, none, String, ◌≡◌, refl, true, ◌&&◌, not, some, List, [], ◌∷◌, arith, any,
  if◌then◌else◌, ◌==◌, eq_iff,
}
use tinydm.Sql.Table.{select_all}
use tinydm.Sql.Quiet.{ticked, Quiet}
use tinydm.Api.{answer, internal, answer-then, none, Request, json, tags}
use Prim.Native.String.{◌++◌}
use tinydm.Schema.{Document, Tables}
use tinydm.Repo.Tags.{set_document_tags, list_document_tags}
use tinydm.Repo.Tags.Laws.{has_tag, has_document, set_document_tags-Quiet, set_document_tags_lem}
use tinydm.Api.Tags.{clean, replace}
use tinydm.Prelude.Texts.{trim_space}

any-clean :
    (h : String) (texts : List String)
    → (not (h == "") && any (λ g. h == g) (clean texts))
      ≡ (not (h == "") && any (λ t. h == trim_space t) texts)
unfolding clean
any-clean h [] = refl
any-clean h (t ∷ texts) =
    ground
      (arith, any-clean h texts, eq_iff (trim_space t) "", eq_iff h "", eq_iff h (trim_space t))

listed :
    (d : String) (x : Conn Tables)
    → (x.world x.tick).fault ≡ none
    → (found : List String) × (list_document_tags d x ≡ (ok found, ticked x))
unfolding list_document_tags
listed d x quiet = (
  order_by x.engine.text_le
      (map (λ r. r.tag) (select_all (λ r. r.document_id == d) x.tables.document_tags)),
  ground arith,
)

replaced :
    (lock : String → Result (Unit {0})) (texts : List String) (r : Request) (d : Document)
    (c : Conn Tables)
    → r.document ≡ some d
    → lock ("doc:" ++ d.id) ≡ ok tt
    → replace lock (some texts) r c
      ≡ answer internal
          (λ found. json 200 (tags found))
          ((set_document_tags d.id (clean texts) >> list_document_tags d.id) c)
unfolding replace
replaced lock texts r d c inside taken = ground arith

-- `Replace` on a document that is a row, with the lock taken and a valid body, where the driver does
-- not fail, replies 200, and the document then has exactly the texts of the body, without the white
-- space around them and without those that are then empty; other documents keep their tags.
pub replace_lem :
    (lock : String → Result (Unit {0})) (texts : List String) (r : Request) (d : Document)
    (c : Conn Tables) (e h : String)
    → Quiet c
    → r.document ≡ some d
    → has_document d.id c.tables ≡ true
    → lock ("doc:" ++ d.id) ≡ ok tt
    → ((found : List String) × ((replace lock (some texts) r c).0 ≡ json 200 (tags found)))
      × (has_tag e h (replace lock (some texts) r c).1.tables ≡ (
          if e == d.id
          then not (h == "") && any (λ t. h == trim_space t) texts
          else has_tag e h c.tables))
replace_lem lock texts r d c e h q inside doc taken =
    let (n, after) = set_document_tags-Quiet d.id (clean texts) c q doc in
    let x = (set_document_tags d.id (clean texts) c).1 in
    let (found, read) = listed d.id x (rw after (q n)) in
    let (done, stored) = set_document_tags_lem d.id (clean texts) c e h q doc in
    let full =
      replaced lock texts r d c inside taken
      ∙ answer-then (set_document_tags d.id (clean texts)) (list_document_tags d.id)
          (λ found. json 200 (tags found)) c x (ticked x) found (λ i. (done i, x)) read in
    (
      (found, ap (λ y. y.0) full),
      ap (λ y. has_tag e h y.1.tables) full
          ∙ (stored ∙ ap (λ b. if e == d.id then b else has_tag e h c.tables) (any-clean h texts)),
    )
