-- ===== src/Repo/Versions/Undo.antt =====
-- A restore is undone by restoring the snapshot that it made.
use tinydm.Prelude.{
  ◌+◌, String, ◌≡◌, refl, ◌∙◌, ap, Bool, false, ◌&&◌, not, some, List, [], ◌∷◌, ◌++◌, arith, any,
  head?, ◌==◌, eq_iff, ◌≢◌,
}
use tinydm.Sql.{ok, Conn}
use tinydm.Sql.Quiet.{Quiet, ticked}
use tinydm.Sql.Table.{Row, select_all, update_live, update_clashes, any_row, matches}
use mathlib.Core.Path.{fun_ext}
use tinydm.Sql.Table.Find.{key-find, find-update_self}
use tinydm.Schema.{Document, DocumentVersion, Tables}
use tinydm.Repo.Documents.{same_columns}
use tinydm.Repo.Versions.{restore_document_version}
use tinydm.Repo.Versions.Update.{update-Quiet, after_update}
use tinydm.Repo.Versions.Snapshot.{
  find_document, version_taken, snapshot_of, now_at, Content, replaced, name_taken,
}
use tinydm.Repo.Versions.Restore.{
  find_version, content_of, restored_at, saved_at, restore-Quiet, restore_document_version_lem,
}

find_version_new :
    (version_id id : String) (v : DocumentVersion) (vs : List DocumentVersion)
    → any (λ w. w.id == version_id) vs ≡ false
    → v.id ≡ version_id
    → v.document_id ≡ id
    → head? (select_all (λ w. w.id == version_id && w.document_id == id) (vs ++ v ∷ [])) ≡ some v
unfolding select_all
find_version_new version_id id v [] h e f =
    ground (arith, eq_iff v.id version_id, eq_iff v.document_id id)
find_version_new version_id id v (w ∷ vs) h e f =
    ground (arith, find_version_new version_id id v vs)

not_taken-append :
    (version_id : String) (v : DocumentVersion) (vs : List DocumentVersion)
    → any (λ w. w.id == version_id) vs ≡ false
    → v.id ≢ version_id
    → any (λ w. w.id == version_id) (vs ++ v ∷ []) ≡ false
not_taken-append version_id v [] h ne = ground (arith, eq_iff v.id version_id)
not_taken-append version_id v (w ∷ vs) h ne = ground (arith, not_taken-append version_id v vs)

module _ (id : String) (k k' : Content) (now : String) where
  others_updated :
      (x : Document) (rows : List (Row Document))
      → any_row
          (λ b. not (b.id == id) && same_columns x b)
          (update_live (λ d. d.id == id) (replaced k' now) rows)
        ≡ any_row (λ b. not (b.id == id) && same_columns x b) rows
  unfolding update_live
  others_updated x [] = refl
  others_updated x (r ∷ rows) = ground (arith, others_updated x rows)

  holders_updated :
      (q : Document → Bool) (rows : List (Row Document))
      → ((d : Document) → q (replaced k' now d) ≡ q d)
      → any
          (λ r. matches (λ d. d.id == id) r && q r.value)
          (update_live (λ d. d.id == id) (replaced k' now) rows)
        ≡ any (λ r. matches (λ d. d.id == id) r && q r.value) rows
  unfolding update_live
  holders_updated q [] same = refl
  holders_updated q (r ∷ rows) same = ground (arith, holders_updated q rows same, same r.value)

  name_taken_updated :
      (t : Tables)
      → update_clashes
          (λ d. d.id == id)
          (replaced k "")
          same_columns
          (update_live (λ d. d.id == id) (replaced k' now) t.documents)
        ≡ name_taken id k t
  unfolding update_clashes
  name_taken_updated t =
      let after = update_live (λ d. d.id == id) (replaced k' now) t.documents in
      let holds = λ (rows : List (Row Document)) (d : Document).
        any_row (λ b. not (b.id == id) && same_columns (replaced k "" d) b) rows in
      holders_updated (holds after) t.documents (λ d. refl)
      ∙ ap (λ q. any (λ r. matches (λ d. d.id == id) r && q r.value) t.documents)
          (fun_ext λ d. others_updated (replaced k "" d) t.documents)

module _ (first second id version_id by by' : String) (c : Conn Tables) (v : DocumentVersion)
    (d : Document) where
  abbrev saved : DocumentVersion
  saved = snapshot_of first by (saved_at c) d

  abbrev restored : Document
  restored = replaced (content_of d.name v) (restored_at c) d

  abbrev restored_conn : Conn Tables
  restored_conn = ticked (after_update first id (content_of d.name v) by (ticked (ticked c)) d)

  first_restore :
      Quiet c
      → find_version version_id id c.tables ≡ some v
      → find_document id c.tables ≡ some d
      → version_taken first c.tables ≡ false
      → name_taken id (content_of d.name v) c.tables ≡ false
      → restore_document_version first id version_id by c ≡ (ok (some restored), restored_conn)
  first_restore q fv fd fresh free =
      restore-Quiet first id version_id by c v d q fv fd
      ∙ update-Quiet first id (content_of d.name v) by (ticked (ticked c)) d q fd fresh free

  second_restore :
      Quiet c
      → find_document id c.tables ≡ some d
      → version_taken first c.tables ≡ false
      → version_taken second c.tables ≡ false
      → first ≢ second
      → name_taken id (content_of d.name v) c.tables ≡ false
      → (restore_document_version second id first by' restored_conn).0
        ≡ ok (some (replaced (content_of d.name saved) (restored_at restored_conn) restored))
  unfolding update_clashes
  second_restore q fd fresh fresh' ne free =
      (restore_document_version_lem second id first by' restored_conn saved restored id q
        (find_version_new first id saved c.tables.document_versions fresh refl
          (key-find (λ d. d.id) id c.tables.documents d fd))
        (find-update_self (λ d. d.id) id (replaced (content_of d.name v) (restored_at c))
          (λ a. refl) c.tables.documents d fd)
        (not_taken-append second saved c.tables.document_versions fresh' ne)
        (name_taken_updated id (content_of d.name saved) (content_of d.name v) (restored_at c)
            c.tables
          ∙ free)).0

-- Restoring the snapshot that a restore made gives the document its former content back: the same
-- type, size, checksum and storage key, under the same name, two versions later.
pub restore_undo :
    (first second id version_id by by' : String) (c : Conn Tables) (v : DocumentVersion)
    (d : Document)
    → Quiet c
    → find_version version_id id c.tables ≡ some v
    → find_document id c.tables ≡ some d
    → version_taken first c.tables ≡ false
    → version_taken second c.tables ≡ false
    → first ≢ second
    → name_taken id (content_of d.name v) c.tables ≡ false
    → let c' = (restore_document_version first id version_id by c).1 in
      (restore_document_version second id first by' c').0
      ≡ ok (
          some (record d {
            version = d.version + 1 + 1;
            updated_at = now_at c (c.tick + 1 + 1 + 1 + 1 + 1 + 1 + 1 + 1 + 1 + 1 + 1 + 1);
          }))
restore_undo first second id version_id by by' c v d q fv fd fresh fresh' ne free =
    rw (first_restore first second id version_id by by' c v d q fv fd fresh free)
      (second_restore first second id version_id by by' c v d q fd fresh fresh' ne free)
