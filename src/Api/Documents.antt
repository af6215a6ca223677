-- ===== src/Api/Documents.antt =====
-- internal/api/documents.go; Upload and Update are in a child.
pub mod Laws
pub mod Upload
use Prim.Native.String.{◌++◌}
use tinydm.Prelude.{ℕ, String, not, Option, List, if◌then◌else◌, ◌==◌}
use tinydm.Sql.{Error, Result, ok, err}
use tinydm.Repo.{PageOpts, quoted}
use tinydm.Repo.Documents.{list_documents, search_documents, delete_document}
use tinydm.Repo.Tags.{list_documents_by_tag}
use tinydm.Repo.Versions.{list_document_versions, restore_document_version}
use tinydm.Storage.{Files}
use tinydm.Api.Users.{principal_id}
use tinydm.Api.{
  Reply, json, error_body, no_content, content, one_document, documents, versions, Handler,
  page_params, paged_meta, with_value, answer, internal, Payload, PagedMeta,
}
use tinydm.Storage

abbrev found_page : {A : Type 0} → PageOpts → (List A → PagedMeta → Payload) → List A × ℕ → Reply
found_page page f found = json 200 (f found.0 (paged_meta found.1 page.limit page.offset))

-- `DocumentHandler.List`: by tag, by name, or all
unfoldable pub list : Handler
list r c =
    let page = page_params r in
    let tag = r.query "tag" in
    let q = r.query "q" in
    with_value r.bucket
      (λ bucket c. answer internal (found_page page documents) (
        if not (tag == "")
        then list_documents_by_tag bucket.id tag page c
        else if not (q == "")
        then search_documents bucket.id q page c
        else list_documents bucket.id page c))
      c

-- `DocumentHandler.Get`
unfoldable pub get : Handler
get r c = (json 200 (one_document r.document), c)

-- `DocumentHandler.Download`; the arguments are what the operating system does and the files.
unfoldable pub download : Option Error → Files → Handler
download fault files r c =
    with_value r.document
      (λ doc c. elim (tinydm.Storage.get fault doc.storage_key files) [
        | err e ↦ (error_body 404 "content not found", c)
        | ok bytes ↦ (
          content doc.content_type ("attachment; filename=" ++ quoted doc.name) doc.size bytes,
          c,
        )
      ])
      c

-- `DocumentHandler.Delete`
unfoldable pub delete : Handler
delete r c =
    with_value r.document (λ doc c. answer internal (λ _. no_content) (delete_document doc.id c)) c

-- `DocumentHandler.ListVersions`
unfoldable pub list_versions : Handler
list_versions r c =
    let page = page_params r in
    with_value r.document
      (λ doc c. answer internal (found_page page versions) (list_document_versions doc.id page c)) c

-- `DocumentHandler.RestoreVersion`; `snapshot_id` is the identifier of the snapshot. The version is
-- read after the lock is taken.
unfoldable pub restore_version : (String → Result (Unit {0})) → String → Handler
restore_version lock snapshot_id r c =
    with_value r.document
      (λ doc c. elim (lock ("doc:" ++ doc.id)) [
        | err e ↦ (error_body 503 "could not acquire lock", c)
        | ok _ ↦
            with_value r.version
              (λ version c.
                answer (λ e. error_body 500 "failed to restore version")
                  (λ updated. json 200 (one_document updated))
                  (restore_document_version snapshot_id doc.id version.id (principal_id r) c))
              c
      ])
      c
