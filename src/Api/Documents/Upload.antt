-- ===== src/Api/Documents/Upload.antt =====
-- internal/api/documents.go: Upload and Update, which store content. The standard library's parser of
-- multipart forms and `http.DetectContentType` are arguments: what the form holds, or none where it
-- is none, and `detect`.
pub mod Laws
pub mod Replace
use Prim.Native.String.{◌++◌}
use tinydm.Prelude.{ℕ, String, Bool, Option, none, some, List, [], ◌∷◌, if◌then◌else◌, ◌==◌}
use tinydm.Sql.{Error, Result, ok, err, driver, plain, wrap, conflict, Conn}
use tinydm.Schema.{Bucket, Document, Tables}
use tinydm.Repo.Documents.{create_document}
use tinydm.Repo.Versions.{update_document}
use tinydm.Repo.Properties.{merge_document_properties}
use tinydm.Storage.{Files, PutFault, Stored, put}
use tinydm.Meta.Defs.{Props, Reader, Decoders}
use tinydm.Meta.{extract}
use tinydm.Api.Users.{principal_id}
use tinydm.Api.Security.{sanitize_filename}
use tinydm.Api.{Request, Reply, json, error_body, panicked, one_document}

-- headerBytes
abbrev header_bytes : ℕ
header_bytes = 65536

-- The field "file": its name, what can be read of it, the content that `Put` copies, and whether the
-- two calls of `Seek` succeed.
pub record FormFile : Type 0 where
  pub filename : List ℕ
  pub reader : Reader
  pub bytes : List ℕ
  pub seek_before_put : Bool
  pub seek_before_extract : Bool

pub record Form : Type 0 where
  pub name : List ℕ
  pub file : Option FormFile

-- What surrounds the handlers: the hash, the detection of types, the decoders of metadata, and what
-- the operating system does in `Put`.
pub record Surroundings : Type 0 where
  pub sum256 : List ℕ → List ℕ
  pub detect : List ℕ → String
  pub decoders : Decoders
  pub fault : PutFault

-- The content that `Update` writes, with the properties found in it.
pub record NewContent : Type 0 where
  pub content_type : String
  pub size : ℕ
  pub checksum : String
  pub storage_key : String
  pub props : Props

abbrev pub same_content : Document → NewContent
same_content doc = record {
  content_type = doc.content_type;
  size = doc.size;
  checksum = doc.checksum;
  storage_key = doc.storage_key;
  props = [];
}

abbrev pub World : Type 0
World = Files × Conn Tables

abbrev Done : Type 0
Done = Reply × World

-- `errors.As(err, &conflict)`, or the message of the handler
abbrev conflict_or : String → Error → Reply
conflict_or message (conflict m) = error_body 409 m
conflict_or message (driver m) = error_body 500 message
conflict_or message (plain m) = error_body 500 message
conflict_or message (wrap context e) = conflict_or message e

-- `if len(props) > 0 { _ = h.store.MergeDocumentProperties(…, doc.ID, props) }`, and the reply. A nil
-- document panics where its identifier is read; the connection is then as it was.
abbrev merged : ℕ → Props → Option Document → Files → Conn Tables → Done
merged status [] doc files c = (json status (one_document doc), (files, c))
merged status (p ∷ props) none files c = (panicked, (files, c))
merged status (p ∷ props) (some doc) files c = (
  json status (one_document (some doc)),
  (files, (merge_document_properties doc.id (p ∷ props) c).1),
)

module _ (s : Surroundings) where
  abbrev extracted : String → FormFile → Props
  extracted content_type file =
      if file.seek_before_extract then extract s.decoders content_type file.reader else []

  abbrev detected : FormFile → String
  detected file = s.detect (file.reader.read header_bytes)

  abbrev upload_name : List ℕ → FormFile → String
  upload_name [] file = s.decoders.text (sanitize_filename file.filename)
  upload_name (b ∷ name) file = s.decoders.text (sanitize_filename (b ∷ name))

  abbrev created : FormFile → Result (Option Document) × Conn Tables → Files → Done
  created file (err e, c) files = (conflict_or "failed to create document record" e, (files, c))
  created file (ok doc, c) files = merged 201 (extracted (detected file) file) doc files c

  -- The end of `Upload`, from the call of `Put`: `id` is the new identifier.
  abbrev stored_new :
      String → Request → Bucket → List ℕ → FormFile → Result Stored × Files → Conn Tables → Done
  stored_new id r bucket name file (err e, files) c =
      (error_body 500 "failed to store file", (files, c))
  stored_new id r bucket name file (ok new, files) c =
      created file
        (create_document id bucket.id (upload_name name file) (detected file) new.size new.checksum
          new.key (principal_id r) c)
        files

  abbrev upload_file : String → Request → Bucket → List ℕ → FormFile → World → Done
  upload_file id r bucket name file (files, c) =
      if file.seek_before_put
      then stored_new id r bucket name file (put s.sum256 s.fault file.bytes files) c
      else (error_body 500 "could not read file", (files, c))

  abbrev upload_form : String → Request → Bucket → Option Form → World → Done
  upload_form id r bucket none w = (error_body 400 "expected multipart/form-data", w)
  upload_form id r bucket (some form) w = elim form.file [
    | none ↦ (error_body 400 "\"file\" field is required", w)
    | some file ↦ upload_file id r bucket form.name file w
  ]

  -- `DocumentHandler.Upload`; `lock` is what `Locker.Lock` gives for a key.
  unfoldable pub upload :
      (String → Result (Unit {0})) → String → Option Form → Request → World → Done
  upload lock id body r w = elim r.bucket [
    | none ↦ (panicked, w)
    | some bucket ↦ elim (lock ("bucket:" ++ bucket.id)) [
      | err e ↦ (error_body 503 "could not acquire lock", w)
      | ok _ ↦ upload_form id r bucket body w
    ]
  ]

  -- The name of a document after `Update`: an empty field and the present name leave it.
  abbrev update_name : List ℕ → Document → String
  update_name [] doc = doc.name
  update_name (b ∷ name) doc =
      if s.decoders.text (b ∷ name) == doc.name
      then doc.name
      else s.decoders.text (sanitize_filename (b ∷ name))

  abbrev content_of_file : FormFile → Stored → NewContent
  content_of_file file new = record {
    content_type = detected file;
    size = new.size;
    checksum = new.checksum;
    storage_key = new.key;
    props = extracted (detected file) file;
  }

  abbrev updated : NewContent → Result (Option Document) × Conn Tables → Files → Done
  updated k (err e, c) files = (error_body 500 "failed to update document", (files, c))
  updated k (ok doc, c) files = merged 200 k.props doc files c

  abbrev write_update : String → Request → Document → List ℕ → NewContent → World → Done
  write_update version_id r doc name k (files, c) =
      updated k
        (update_document version_id doc.id (update_name name doc) k.content_type k.size k.checksum
          k.storage_key (principal_id r) c)
        files

  abbrev stored_update :
      String → Request → Document → List ℕ → FormFile → Result Stored × Files → Conn Tables → Done
  stored_update version_id r doc name file (err e, files) c =
      (error_body 500 "failed to store file", (files, c))
  stored_update version_id r doc name file (ok new, files) c =
      write_update version_id r doc name (content_of_file file new) (files, c)

  abbrev update_file : String → Request → Document → List ℕ → Option FormFile → World → Done
  update_file version_id r doc name none w = write_update version_id r doc name (same_content doc) w
  update_file version_id r doc name (some file) (files, c) =
      if file.seek_before_put
      then stored_update version_id r doc name file (put s.sum256 s.fault file.bytes files) c
      else (error_body 500 "could not read file", (files, c))

  abbrev update_form : String → Request → Document → Option Form → World → Done
  update_form version_id r doc none w = (error_body 400 "expected multipart/form-data", w)
  update_form version_id r doc (some form) w = update_file version_id r doc form.name form.file w

  -- `DocumentHandler.Update`; `version_id` is the identifier of the snapshot.
  unfoldable pub update :
      (String → Result (Unit {0})) → String → Option Form → Request → World → Done
  update lock version_id body r w = elim r.document [
    | none ↦ (panicked, w)
    | some doc ↦ elim (lock ("doc:" ++ doc.id)) [
      | err e ↦ (error_body 503 "could not acquire lock", w)
      | ok _ ↦ update_form version_id r doc body w
    ]
  ]
