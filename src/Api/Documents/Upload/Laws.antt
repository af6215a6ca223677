-- ===== src/Api/Documents/Upload/Laws.antt =====
-- A document that is uploaded, and then downloaded.
use Prim.Native.String.{◌++◌}
use tinydm.Prelude.{
  ℕ, ◌+◌, String, ◌≡◌, refl, ◌∙◌, ap, true, false, none, some, List, [], ◌∷◌, arith, length,
}
use tinydm.Sql.{Result, ok, Conn}
use tinydm.Sql.Quiet.{Quiet}
use tinydm.Schema.{Bucket, Document, Tables}
use tinydm.Repo.{quoted}
use tinydm.Repo.Documents.Laws.{
  id_taken, name_in_bucket, has_bucket, first_version, with_document, create_document-Quiet,
}
use tinydm.Storage.{Files, no_fault, put, get, key_of, hex_of}
use tinydm.Storage.Kept.{NoCollision, put_result, put_files, put_succeeds, get_put}
use tinydm.Meta.Defs.{Props}
use tinydm.Api.Users.{principal_id}
use tinydm.Api.Documents.{download}
use tinydm.Api.Documents.Upload.{
  upload_form, Form, FormFile, Surroundings, upload, upload_name, detected, extracted, merged,
  stored_new, created,
}
use tinydm.Api.{Request, json, one_document, content}

module _ (s : Surroundings) (file : FormFile) where
  -- The document that an upload makes, but for its version and its times.
  abbrev pub upload_document : String → Bucket → List ℕ → String → Document
  upload_document id bucket name by = record {
    id = id;
    bucket_id = bucket.id;
    name = upload_name s name file;
    content_type = detected s file;
    size = length file.bytes;
    checksum = hex_of s.sum256 file.bytes;
    storage_key = key_of s.sum256 file.bytes;
    version = 1;
    created_by = by;
    created_at = "";
    updated_at = "";
  }

module _ (s : Surroundings) (lock : String → Result (Unit {0})) (id : String) (r : Request)
    (bucket : Bucket) (form : Form) (file : FormFile) (files : Files) (c : Conn Tables) where
  abbrev new : Document
  new = upload_document s file id bucket form.name (principal_id r)

  abbrev first : Document
  first = first_version new (c.world c.tick).now

  merged_reply :
      (props : Props) (d : Document) (w : Files) (x : Conn Tables)
      → ((merged 201 props (some d) w x).0 ≡ json 201 (one_document (some d)))
        × ((merged 201 props (some d) w x).1.0 ≡ w)
  merged_reply [] d w x = (refl, refl)
  merged_reply (p ∷ props) d w x = (refl, refl)

  abbrev after : Conn Tables
  after = record c { tables = with_document first c.tables; tick = c.tick + 1 + 1 }

  to_form :
      r.bucket ≡ some bucket
      → lock ("bucket:" ++ bucket.id) ≡ ok tt
      → upload s lock id (some form) r (files, c) ≡ upload_form s id r bucket (some form) (files, c)
  unfolding upload
  to_form inside taken = ground arith

  to_put :
      form.file ≡ some file
      → file.seek_before_put ≡ true
      → upload_form s id r bucket (some form) (files, c)
        ≡ stored_new s id r bucket form.name file (put s.sum256 s.fault file.bytes files) c
  to_put given sought = ground arith

  stored_as :
      s.fault ≡ no_fault
      → put s.sum256 s.fault file.bytes files
        ≡ (ok (put_result s.sum256 file.bytes files), put_files s.sum256 file.bytes files)
  stored_as sound =
      ap (λ f. put s.sum256 f file.bytes files) sound ∙ put_succeeds s.sum256 file.bytes files

  -- What an upload that nothing hinders comes to.
  uploaded :
      Quiet c
      → s.fault ≡ no_fault
      → r.bucket ≡ some bucket
      → lock ("bucket:" ++ bucket.id) ≡ ok tt
      → form.file ≡ some file
      → file.seek_before_put ≡ true
      → id_taken id c.tables ≡ false
      → name_in_bucket bucket.id new.name c.tables ≡ false
      → has_bucket bucket.id c.tables ≡ true
      → upload s lock id (some form) r (files, c)
        ≡ merged 201
            (extracted s (detected s file) file)
            (some first)
            (put_files s.sum256 file.bytes files)
            after
  uploaded q sound inside taken given sought fresh free there =
      to_form inside taken
      ∙ to_put given sought
      ∙ ap (λ p. stored_new s id r bucket form.name file p c) (stored_as sound)
      ∙ ap (λ p. created s file p (put_files s.sum256 file.bytes files))
          (create_document-Quiet new c q fresh free there)

download_lem :
    (p : Request) (d : Document) (files : Files) (bytes : List ℕ) (x : Conn Tables)
    → get none d.storage_key files ≡ ok bytes
    → download none files (record p { document = some d }) x
      ≡ (content d.content_type ("attachment; filename=" ++ quoted d.name) d.size bytes, x)
unfolding download
download_lem p d files bytes x found = ground arith

-- A file that is uploaded under a free name, where nothing fails, is answered with 201 and the
-- document: its type is the detected one, its size, hash and key are those of the content, its name
-- is made safe and its version is 1; and Download of that document then gives the content back,
-- unless another content with the same hash was stored before.
pub download-upload :
    (s : Surroundings) (lock : String → Result (Unit {0})) (id : String) (r p : Request)
    (bucket : Bucket) (form : Form) (file : FormFile) (files : Files) (c : Conn Tables)
    → Quiet c
    → s.fault ≡ no_fault
    → r.bucket ≡ some bucket
    → lock ("bucket:" ++ bucket.id) ≡ ok tt
    → form.file ≡ some file
    → file.seek_before_put ≡ true
    → id_taken id c.tables ≡ false
    → name_in_bucket bucket.id (upload_name s form.name file) c.tables ≡ false
    → has_bucket bucket.id c.tables ≡ true
    → NoCollision s.sum256 file.bytes files
    → let d =
        first_version
          (upload_document s file id bucket form.name (principal_id r))
          (c.world c.tick).now in
      let (reply, (files', c')) = upload s lock id (some form) r (files, c) in
      (reply ≡ json 201 (one_document (some d)))
      × (download none files' (record p { document = some d }) c' ≡ (
        content d.content_type ("attachment; filename=" ++ quoted d.name) d.size file.bytes,
        c',
      ))
download-upload s lock id r p bucket form file files c q sound inside taken given sought fresh free
      there unique =
    let done =
      uploaded s lock id r bucket form file files c q sound inside taken given sought fresh free
        there in
    let d =
      first_version (upload_document s file id bucket form.name (principal_id r))
        (c.world c.tick).now in
    let reply =
      merged_reply s lock id r bucket form file files c (extracted s (detected s file) file) d
        (put_files s.sum256 file.bytes files) (after s lock id r bucket form file files c) in
    (
      ap (λ x. x.0) done ∙ reply.0,
      download_lem p d _ file.bytes _ (
          ap (λ x. get none d.storage_key x.1.0) done
          ∙ ap (get none d.storage_key) reply.1
          ∙ get_put s.sum256 file.bytes files unique),
    )
