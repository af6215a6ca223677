-- ===== src/Api/Documents/Upload/Replace.antt =====
-- A document whose content is replaced.
use Prim.Native.String.{◌++◌}
use tinydm.Prelude.{
  ℕ, ◌+◌, String, ◌≡◌, refl, ◌∙◌, ap, true, false, none, some, List, [], ◌∷◌, arith, length,
}
use tinydm.Sql.{Result, ok, Conn}
use tinydm.Sql.Quiet.{Quiet, ticked}
use tinydm.Schema.{Document, Tables}
use tinydm.Repo.Versions.Snapshot.{
  find_document, version_taken, Content, replaced, name_taken, now_at,
}
use tinydm.Repo.Versions.Update.{update-Quiet, after_update}
use tinydm.Storage.{Files, no_fault, put, get, key_of, hex_of}
use tinydm.Storage.Kept.{NoCollision, put_result, put_files, put_succeeds, get_put, get_kept}
use tinydm.Meta.Defs.{Props}
use tinydm.Api.Users.{principal_id}
use tinydm.Api.Documents.Upload.{
  Form, FormFile, Surroundings, update, update_name, stored_update, updated, detected, extracted,
  merged, content_of_file,
}
use tinydm.Api.{Request, json, one_document}

module _ (s : Surroundings) where
  -- What `Update` writes of a file.
  abbrev pub file_content : Form → FormFile → Document → Content
  file_content form file doc = record {
    name = update_name s form.name doc;
    content_type = detected s file;
    size = length file.bytes;
    checksum = hex_of s.sum256 file.bytes;
    storage_key = key_of s.sum256 file.bytes;
  }

module _ (s : Surroundings) (lock : String → Result (Unit {0})) (version_id : String) (r : Request)
    (doc : Document) (form : Form) (file : FormFile) (files : Files) (c : Conn Tables) where
  abbrev k : Content
  k = file_content s form file doc

  abbrev new : Document
  new = replaced k (now_at c (c.tick + 1 + 1 + 1)) doc

  abbrev kept_files : Files
  kept_files = put_files s.sum256 file.bytes files

  to_put :
      r.document ≡ some doc
      → lock ("doc:" ++ doc.id) ≡ ok tt
      → form.file ≡ some file
      → file.seek_before_put ≡ true
      → update s lock version_id (some form) r (files, c)
        ≡ stored_update s version_id r doc form.name file (put s.sum256 s.fault file.bytes files) c
  unfolding update
  to_put inside taken given sought = ground arith

  stored_as :
      s.fault ≡ no_fault
      → put s.sum256 s.fault file.bytes files
        ≡ (ok (put_result s.sum256 file.bytes files), kept_files)
  stored_as sound =
      ap (λ f. put s.sum256 f file.bytes files) sound ∙ put_succeeds s.sum256 file.bytes files

  merged_reply :
      (props : Props) (d : Document) (x : Conn Tables)
      → ((merged 200 props (some d) kept_files x).0 ≡ json 200 (one_document (some d)))
        × ((merged 200 props (some d) kept_files x).1.0 ≡ kept_files)
  merged_reply [] d x = (refl, refl)
  merged_reply (p ∷ props) d x = (refl, refl)

  update_done :
      Quiet c
      → s.fault ≡ no_fault
      → r.document ≡ some doc
      → lock ("doc:" ++ doc.id) ≡ ok tt
      → form.file ≡ some file
      → file.seek_before_put ≡ true
      → find_document doc.id c.tables ≡ some doc
      → version_taken version_id c.tables ≡ false
      → name_taken doc.id k c.tables ≡ false
      → update s lock version_id (some form) r (files, c)
        ≡ merged 200
            (extracted s (detected s file) file)
            (some new)
            kept_files
            (ticked (after_update version_id doc.id k (principal_id r) c doc))
  update_done q sound inside taken given sought found fresh free =
      to_put inside taken given sought
      ∙ ap (λ p. stored_update s version_id r doc form.name file p c) (stored_as sound)
      ∙ ap
          (λ p.
            updated s (content_of_file s file (put_result s.sum256 file.bytes files)) p kept_files)
          (update-Quiet version_id doc.id k (principal_id r) c doc q found fresh free)

-- Update with a file, where nothing fails and no other document of the bucket has the new name, is
-- answered with 200 and the document with the next version and the new content, and both contents
-- can be read: the new one, unless another content with the same hash was stored before, and the old
-- one, which the snapshot refers to.
pub update_keeps_content :
    (s : Surroundings) (lock : String → Result (Unit {0})) (version_id : String) (r : Request)
    (doc : Document) (form : Form) (file : FormFile) (files : Files) (c : Conn Tables)
    (old : List ℕ)
    → Quiet c
    → s.fault ≡ no_fault
    → r.document ≡ some doc
    → lock ("doc:" ++ doc.id) ≡ ok tt
    → form.file ≡ some file
    → file.seek_before_put ≡ true
    → find_document doc.id c.tables ≡ some doc
    → version_taken version_id c.tables ≡ false
    → name_taken doc.id (file_content s form file doc) c.tables ≡ false
    → files doc.storage_key ≡ some old
    → NoCollision s.sum256 file.bytes files
    → let d = replaced (file_content s form file doc) (now_at c (c.tick + 1 + 1 + 1)) doc in
      let (reply, (files', c')) = update s lock version_id (some form) r (files, c) in
      (reply ≡ json 200 (one_document (some d)))
      × ((get none d.storage_key files' ≡ ok file.bytes)
          × (get none doc.storage_key files' ≡ ok old))
update_keeps_content s lock version_id r doc form file files c old q sound inside taken given sought
      found fresh free there unique =
    let done =
      update_done s lock version_id r doc form file files c q sound inside taken given sought found
        fresh free in
    let k = file_content s form file doc in
    let d = replaced k (now_at c (c.tick + 1 + 1 + 1)) doc in
    let reply =
      merged_reply s lock version_id r doc form file files c (extracted s (detected s file) file) d
        (ticked (after_update version_id doc.id k (principal_id r) c doc)) in
    let same = ap (λ x. x.1.0) done ∙ reply.1 in
    (
      ap (λ x. x.0) done ∙ reply.0,
      (
        ap (get none d.storage_key) same ∙ get_put s.sum256 file.bytes files unique,
        ap (get none doc.storage_key) same
            ∙ get_kept s.sum256 file.bytes files doc.storage_key old there,
      ),
    )
