-- ===== src/Web/Documents/Laws.antt =====
-- A document that is deleted in the browser, and the content that it shares with another.
use Prim.Native.String.{◌++◌}
use tinydm.Prelude.{String, ◌≡◌, ◌≢◌, ◌∙◌, ap, none, some, arith, eq_iff, ◌+◌, ◌==◌}
use tinydm.Sql.{Error, ok, err, plain, Conn}
use tinydm.Sql.Quiet.{Quiet, ticked}
use tinydm.Sql.Table.{mark_deleted}
use tinydm.Sql.Table.Find.{find, find-mark_self, find-mark_ne}
use tinydm.Schema.{Document, Tables}
use tinydm.Repo.Documents.{get_document}
use tinydm.Storage.{Files}
use tinydm.Api.{Request, error_body}
use tinydm.Api.Documents.{download}
use tinydm.Web.{WebRequest, header}
use tinydm.Web.Documents.{delete_document, removed, found_or_404}
use tinydm.Repo.Documents
use tinydm.Storage

module _ (id : String) (c : Conn Tables) where
  abbrev without : Conn Tables
  without = record c {
    tables = record c.tables {
      documents = mark_deleted (λ d. d.id == id) (c.world c.tick).now c.tables.documents;
    };
    tick = c.tick + 1;
  }

  get_found :
      (d : Document)
      → (c.world c.tick).fault ≡ none
      → find (λ d. d.id) id c.tables.documents ≡ some d
      → get_document id c ≡ (ok (some d), ticked c)
  unfolding get_document
  get_found d quiet found = ground arith

  delete_found :
      (c.world c.tick).fault ≡ none → tinydm.Repo.Documents.delete_document id c ≡ (ok tt, without)
  unfolding tinydm.Repo.Documents.delete_document
  delete_found quiet = ground arith

-- The files without the content of a key
abbrev files_without : String → Files → Files
files_without key files = (tinydm.Storage.delete none key files).1

deleted_reply :
    (r : WebRequest) (d : Document) (files : Files) (c : Conn Tables)
    → Quiet c
    → find (λ d. d.id) (r.url_param "documentID") c.tables.documents ≡ some d
    → delete_document none r (files, c) ≡ (
      header 200,
      (files_without d.storage_key files, without (r.url_param "documentID") (ticked c)),
    )
unfolding delete_document
deleted_reply r d files c q found =
    let id = r.url_param "documentID" in
    ap
      (found_or_404
        (λ doc (files, c). removed none doc files (tinydm.Repo.Documents.delete_document id c))
        files)
      (get_found id c d (q c.tick) found)
    ∙ ap (removed none d files) (delete_found id (ticked c) (q (c.tick + 1)))

download_err :
    (p : Request) (e : Document) (files : Files) (problem : Error) (x : Conn Tables)
    → tinydm.Storage.get none e.storage_key files ≡ err problem
    → download none files (record p { document = some e }) x
      ≡ (error_body 404 "content not found", x)
unfolding download
download_err p e files problem x failed = ground arith

get_gone :
    (key key' : String) (files : Files)
    → key' ≡ key
    → tinydm.Storage.get none key' (files_without key files)
      ≡ err (plain ("content not found: " ++ key'))
unfolding tinydm.Storage.get tinydm.Storage.delete
get_gone key key' files same = ground (arith, (eq_iff key' key).1 same)

-- Deleting a document in the browser, where no statement and no file operation fails, deletes the
-- document and the content under its key; every other live document with the same content, whose key
-- is the same, stays in the tables, and Download of it finds no content.
pub delete_document_loses :
    (r : WebRequest) (d e : Document) (files : Files) (c : Conn Tables) (p : Request)
    (x : Conn Tables)
    → Quiet c
    → find (λ d. d.id) (r.url_param "documentID") c.tables.documents ≡ some d
    → find (λ d. d.id) e.id c.tables.documents ≡ some e
    → e.id ≢ r.url_param "documentID"
    → e.storage_key ≡ d.storage_key
    → let (reply, (files', c')) = delete_document none r (files, c) in
      (reply ≡ header 200)
      × ((find (λ d. d.id) (r.url_param "documentID") c'.tables.documents ≡ none)
          × ((find (λ d. d.id) e.id c'.tables.documents ≡ some e)
              × (download none files' (record p { document = some e }) x
                  ≡ (error_body 404 "content not found", x))))
delete_document_loses r d e files c p x q found there other same =
    let id = r.url_param "documentID" in
    let done = deleted_reply r d files c q found in
    let now = (c.world (c.tick + 1)).now in
    (
      ap (λ o. o.0) done,
      (
        ap (λ o. find (λ d. d.id) id o.1.1.tables.documents) done
            ∙ find-mark_self (λ d. d.id) id now c.tables.documents,
        (
          ap (λ o. find (λ d. d.id) e.id o.1.1.tables.documents) done
              ∙ (find-mark_ne (λ d. d.id) id now e.id other c.tables.documents ∙ there),
          ap (λ o. download none o.1.0 (record p { document = some e }) x) done
              ∙ download_err p e (files_without d.storage_key files) _ x
                  (get_gone d.storage_key e.storage_key files same),
        ),
      ),
    )
