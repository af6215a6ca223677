-- ===== src/Tests/Documents.antt =====
-- Updates and restores of a document.
use tinydm.Prelude.{
  ◌+◌, String, ◌≡◌, refl, true, false, some, [], ◌∷◌, arith, eq_iff, if◌then◌else◌, ◌==◌,
}
use tinydm.Sql.{ok, err, wrap, driver}
use tinydm.Sql.Table.{select, select_all, update_clashes}
use tinydm.Repo.Versions.{restore_document_version}
use tinydm.Repo.Versions.Update.{update_document_not_atomic}
use tinydm.Repo.Versions.Snapshot.{
  Content, find_document, name_taken, update_with, replaced, snapshot_of, with_version,
}
use tinydm.Repo.Versions.Restore.{find_version, content_of, restore_document_version_lem}
use tinydm.Repo.Versions.Undo.{restore_undo}
use tinydm.Tests.{conn, document, version}

abbrev content : String → Content
content name = record {
  name = name;
  content_type = "image/png";
  size = 9;
  checksum = "c2";
  storage_key = "c/2";
}

pub found : find_document "d" conn.tables ≡ some (document "d" "a.txt")
unfolding select
found = refl

pub found_version : find_version "v1" "d" conn.tables ≡ some version
unfolding select_all
found_version = refl

free : (name : String) → name ≡ "c.txt" → name_taken "d" (content name) conn.tables ≡ false
unfolding update_clashes
free name e = rw e refl

pub own_name : name_taken "d" (content_of "a.txt" version) conn.tables ≡ false
unfolding update_clashes
own_name = refl

taken : name_taken "d" (content "b.txt") conn.tables ≡ true
unfolding update_clashes
taken = refl

update_document_not_atomic_example :
    let (r, c') = update_with "v2" "d" (content "b.txt") "w" conn in
    (r ≡ err (wrap "update document" (driver "UNIQUE constraint failed")))
    × (c'.tables ≡ with_version (snapshot_of "v2" "w" "now" (document "d" "a.txt")) conn.tables)
update_document_not_atomic_example =
    update_document_not_atomic "v2" "d" (content "b.txt") "w" conn (document "d" "a.txt")
      (λ n. refl) found refl taken

restore_document_version_example :
    let (r, c') = restore_document_version "v2" "d" "v1" "w" conn in
    let d' = replaced (content_of "a.txt" version) "now" (document "d" "a.txt") in
    (r ≡ ok (some d'))
    × (c'.tables.document_versions
        ≡ version ∷ snapshot_of "v2" "w" "now" (document "d" "a.txt") ∷ [])
    × (find_document "e" c'.tables
        ≡ (if "e" == "d" then some d' else find_document "e" conn.tables))
restore_document_version_example =
    restore_document_version_lem "v2" "d" "v1" "w" conn version (document "d" "a.txt") "e"
      (λ n. refl) found_version found refl own_name

restore_undo_example :
    let c' = (restore_document_version "v2" "d" "v1" "w" conn).1 in
    (restore_document_version "v3" "d" "v2" "w" c').0
    ≡ ok (some (record (document "d" "a.txt") { version = 2 + 1 + 1; updated_at = "now" }))
restore_undo_example =
    restore_undo "v2" "v3" "d" "v1" "w" "w" conn version (document "d" "a.txt") (λ n. refl)
      found_version found refl refl (ground (arith, eq_iff "v2" "v3")) own_name
