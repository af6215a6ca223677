-- ===== src/Web/Documents.antt =====
-- internal/web/handlers.go: the documents. What a form holds is an argument: none where its parser fails.
pub mod Laws
use Prim.Native.String.{◌++◌}
use tinydm.Prelude.{ℕ, String, Option, none, some, List, [], ◌∷◌, if◌then◌else◌, ◌==◌}
use tinydm.Prelude.Texts.{trim_space}
use tinydm.Sql.{Error, Result, ok, err, error_text, Conn}
use tinydm.Schema.{Document, Tables}
use tinydm.Repo.Documents.{get_document, create_document, rename_document}
use tinydm.Repo.Versions.{update_document, restore_document_version}
use tinydm.Repo.Tags.{list_document_tags, add_document_tag, remove_document_tag}
use tinydm.Repo.Properties.{merge_document_properties, delete_document_property}
use tinydm.Storage.{Files, Stored}
use tinydm.Meta.{extract}
use tinydm.Meta.Defs.{Props}
use tinydm.Api.Documents.Upload.{FormFile, Form, Surroundings}
use tinydm.Web.{
  WebRequest, WebReply, http_error, not_found, header, partial, attachment, crashed, document_row,
  document_edit_row, doc_tags_inner, Site, WebHandler,
}
use tinydm.Repo.Documents
use tinydm.Storage

-- http.Error(w, context+err.Error(), http.StatusInternalServerError)
abbrev pub failed_with : String → Error → WebReply
failed_with context e = http_error (context ++ error_text e) 500

-- `if err != nil || doc == nil { http.NotFound }`, for the document of the path
abbrev found_or_404 :
    (Document → Site → WebReply × Site)
    → Files
    → Result (Option Document) × Conn Tables
    → WebReply × Site
found_or_404 next files (err e, c) = (not_found, (files, c))
found_or_404 next files (ok none, c) = (not_found, (files, c))
found_or_404 next files (ok (some doc), c) = next doc (files, c)

abbrev on_document : (Document → Site → WebReply × Site) → WebHandler
on_document next r (files, c) = found_or_404 next files (get_document (r.url_param "documentID") c)

-- `editDocumentForm`
unfoldable edit_document_form : WebHandler
edit_document_form = on_document (λ doc s. (partial (document_edit_row doc), s))

-- `documentRowPartial`
unfoldable document_row_partial : WebHandler
document_row_partial = on_document (λ doc s. (partial (document_row (some doc)), s))

-- The end of `deleteDocument`: an error of the storage is only logged.
abbrev removed : Option Error → Document → Files → Result (Unit {0}) × Conn Tables → WebReply × Site
removed fault doc files (err e, c) = (http_error "delete failed" 500, (files, c))
removed fault doc files (ok _, c) =
    (header 200, ((tinydm.Storage.delete fault doc.storage_key files).1, c))

-- `deleteDocument`; `fault` is what the operating system does in the storage's `Delete`.
unfoldable pub delete_document : Option Error → WebHandler
delete_document fault r s =
    on_document
      (λ doc (files, c).
        removed fault doc files
          (tinydm.Repo.Documents.delete_document (r.url_param "documentID") c))
      r s

-- `downloadDocument`; `escape` is url.PathEscape.
unfoldable download_document : (String → String) → Option Error → WebHandler
download_document escape fault = on_document (λ doc (files, c).
    elim (tinydm.Storage.get fault doc.storage_key files) [
      | err e ↦ (http_error "storage error" 500, (files, c))
      | ok bytes ↦ (
        attachment doc.content_type ("attachment; filename=\"" ++ (escape doc.name ++ "\""))
            doc.size bytes,
        (files, c),
      )
    ])

-- `addDocumentTag`; an error of the list is dropped, and the list is then empty.
abbrev tags_or_none : Result (List String) → List String
tags_or_none (err e) = []
tags_or_none (ok tags) = tags

abbrev shown_tags : String → String → Files → Result (Unit {0}) × Conn Tables → WebReply × Site
shown_tags context id files (err e, c) = (failed_with context e, (files, c))
shown_tags context id files (ok _, c) =
    let (tags, c') = list_document_tags id c in
    (partial (doc_tags_inner id (tags_or_none tags)), (files, c'))

unfoldable add_document_tag_web : WebHandler
add_document_tag_web r (files, c) =
    let id = r.url_param "documentID" in
    let tag = trim_space (r.form_value "tag") in
    if tag == ""
    then (http_error "tag required" 400, (files, c))
    else shown_tags "add tag failed: " id files (add_document_tag id tag c)

-- `removeDocumentTag`
unfoldable remove_document_tag_web : WebHandler
remove_document_tag_web r (files, c) =
    let id = r.url_param "documentID" in
    shown_tags "remove tag failed: " id files (remove_document_tag id (r.url_param "tag") c)

abbrev ended : {A : Type 0} → String → Files → Result A × Conn Tables → WebReply × Site
ended context files (err e, c) = (failed_with context e, (files, c))
ended context files (ok a, c) = (header 200, (files, c))

-- `deleteDocumentPropertyWeb`
unfoldable delete_document_property_web : WebHandler
delete_document_property_web r (files, c) =
    ended "delete property failed: " files
      (delete_document_property (r.url_param "documentID") (r.url_param "key") c)

-- `restoreDocumentVersionWeb`; `snapshot_id` is the identifier of the snapshot.
unfoldable restore_document_version_web : String → WebHandler
restore_document_version_web snapshot_id r (files, c) = ended "restore failed: " files (
    restore_document_version snapshot_id (r.url_param "documentID") (r.url_param "versionID")
      r.principal.username c)

-- The field "file", with the type that its own header names.
pub record WebFile : Type 0 where
  pub file : FormFile
  pub header_type : String

module _ (s : Surroundings) where
  -- http.DetectContentType of the first 512 bytes
  abbrev sniffed : FormFile → String
  sniffed file = s.detect (file.reader.read 512)

  abbrev merged_props : Props → Option Document → Site → WebReply × Site
  merged_props [] doc w = (partial (document_row doc), w)
  merged_props (p ∷ props) none w = (crashed, w)
  merged_props (p ∷ props) (some doc) (files, c) = (
    partial (document_row (some doc)),
    (files, (merge_document_properties doc.id (p ∷ props) c).1),
  )

  abbrev extracted_from : FormFile → Props
  extracted_from file =
      if file.seek_before_extract then extract s.decoders (sniffed file) file.reader else []

  abbrev uploaded_row : FormFile → Files → Result (Option Document) × Conn Tables → WebReply × Site
  uploaded_row file files (err e, c) = (failed_with "db error: " e, (files, c))
  uploaded_row file files (ok doc, c) = merged_props (extracted_from file) doc (files, c)

  -- The name in the form, or the file's own; it is stored as it is.
  abbrev given_name : List ℕ → FormFile → String
  given_name [] file = s.decoders.text file.filename
  given_name (b ∷ name) file = s.decoders.text (b ∷ name)

  abbrev put_and_create :
      String
      → WebRequest
      → List ℕ
      → FormFile
      → Conn Tables
      → Result Stored × Files
      → WebReply × Site
  put_and_create id r name file c (err e, files) = (failed_with "storage error: " e, (files, c))
  put_and_create id r name file c (ok new, files) = uploaded_row file files (
      create_document id (r.url_param "bucketID") (given_name name file) (sniffed file) new.size
        new.checksum new.key r.principal.username c)

  abbrev upload_file_web : String → WebRequest → List ℕ → Option FormFile → Site → WebReply × Site
  upload_file_web id r name none w = (http_error "no file provided" 400, w)
  upload_file_web id r name (some file) (files, c) =
      if file.seek_before_put
      then put_and_create id r name file c (tinydm.Storage.put s.sum256 s.fault file.bytes files)
      else (http_error "could not read file" 500, (files, c))

  -- `uploadDocument`; `id` is the new identifier.
  unfoldable upload_document_web : String → Option Form → WebHandler
  upload_document_web id none r w = (http_error "bad multipart form" 400, w)
  upload_document_web id (some form) r w = upload_file_web id r form.name form.file w

  abbrev row_or : String → Files → Result (Option Document) × Conn Tables → WebReply × Site
  row_or context files (err e, c) = (failed_with context e, (files, c))
  row_or context files (ok doc, c) = (partial (document_row doc), (files, c))

  abbrev kept_name : List ℕ → Document → String
  kept_name [] doc = doc.name
  kept_name (b ∷ name) doc = s.decoders.text (b ∷ name)

  abbrev type_or_bytes : String → String
  type_or_bytes ct = if ct == "" then "application/octet-stream" else ct

  abbrev put_and_update :
      String → WebRequest → String → WebFile → Conn Tables → Result Stored × Files → WebReply × Site
  put_and_update version_id r name file c (err e, files) =
      (failed_with "storage error: " e, (files, c))
  put_and_update version_id r name file c (ok new, files) = row_or "update failed: " files (
      update_document version_id (r.url_param "documentID") name (type_or_bytes file.header_type)
        new.size new.checksum new.key r.principal.username c)

  -- The end of `updateDocument`: with a file, or the name alone
  abbrev renamed_or_replaced :
      String → WebRequest → String → Option WebFile → Site → WebReply × Site
  renamed_or_replaced version_id r name none (files, c) =
      row_or "rename failed: " files (rename_document (r.url_param "documentID") name c)
  renamed_or_replaced version_id r name (some file) (files, c) =
      put_and_update version_id r name file c
        (tinydm.Storage.put s.sum256 s.fault file.file.bytes files)

  -- `updateDocument`, by the field "name" and the field "file"; `version_id` is the identifier of the
  -- snapshot.
  unfoldable update_document_web : String → List ℕ → Option WebFile → WebHandler
  update_document_web version_id name file r w =
      on_document (λ doc. renamed_or_replaced version_id r (kept_name name doc) file) r w
