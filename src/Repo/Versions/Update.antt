-- ===== src/Repo/Versions/Update.antt =====
-- What `update_document` of internal/repo/store.go does: where every statement runs, and where one
-- of them fails.
use tinydm.Repo.Versions.Snapshot.{
  find_document, version_taken, snapshot_of, with_version, now_at, get_document_quiet,
  create_version_quiet, Content, replaced, name_taken, update_with, updated,
}
use tinydm.Sql.Table.Find.{key-find, find, find-update_self, find-update_ne, any_row_of_find}
use Prim.Native.String.{◌++◌ as append}
use tinydm.Prelude.{
  ◌+◌, String, ◌≡◌, refl, true, false, none, some, [], ◌∷◌, ◌++◌, arith, if◌then◌else◌, ◌==◌,
  eq_iff, Bool-cases, inl, inr,
}
use tinydm.Sql.{ok, err, driver, plain, wrap, Conn, statement}
use tinydm.Sql.Quiet.{Quiet, ticked}
use tinydm.Sql.Table.{update_live, update_clashes, any_row}
use tinydm.Schema.{Document, Tables}
use tinydm.Repo.Versions.{update_document, set_document}

module _ (version_id id : String) (k : Content) (by : String) (c : Conn Tables) (d : Document) where
  set_document_quiet :
      (s : Conn Tables)
      → (s.world s.tick).fault ≡ none
      → name_taken id k s.tables ≡ false
      → statement (set_document id k.name k.content_type k.size k.checksum k.storage_key) s ≡ (
        ok tt,
        record s {
          tables = record s.tables {
            documents =
                update_live (λ d. d.id == id) (replaced k (now_at s s.tick)) s.tables.documents;
          };
          tick = s.tick + 1;
        },
      )
  unfolding update_clashes
  set_document_quiet s q free = ground (arith)

  set_document_taken :
      (s : Conn Tables)
      → (s.world s.tick).fault ≡ none
      → name_taken id k s.tables ≡ true
      → statement (set_document id k.name k.content_type k.size k.checksum k.storage_key) s
        ≡ (err (driver (s.engine.unique_violation "documents.bucket_id, documents.name")), ticked s)
  unfolding update_clashes
  set_document_taken s q taken = ground (arith)

  pub find_updated :
      (j now : String) (t : Tables)
      → find_document id t ≡ some d
      → find (λ d. d.id) j (update_live (λ d. d.id == id) (replaced k now) t.documents)
        ≡ (if j == id then some (replaced k now d) else find_document j t)
  find_updated j now t found = elim (Bool-cases (j == id)) [
    | inl same ↦
        rw (same, (eq_iff j id).0 same)
          (find-update_self (λ d. d.id) id (replaced k now) (λ a. refl) t.documents d found)
    | inr other ↦ rw other (
        find-update_ne (λ d. d.id) id (replaced k now) j (λ a. refl) (ground (arith, eq_iff j id))
          t.documents)
  ]

  -- The states before the UPDATE and after it.
  abbrev before_update : Conn Tables
  before_update = record c {
    tables = with_version (snapshot_of version_id by (now_at c (c.tick + 1)) d) c.tables;
    tick = c.tick + 1 + 1 + 1;
  }

  abbrev pub after_update : Conn Tables
  after_update = record c {
    tables =
        updated version_id id k by (now_at c (c.tick + 1)) (now_at c (c.tick + 1 + 1 + 1)) d
          c.tables;
    tick = c.tick + 1 + 1 + 1 + 1;
  }

  abbrev new_document : Document
  new_document = replaced k (now_at c (c.tick + 1 + 1 + 1)) d

  found_id : find_document id c.tables ≡ some d → d.id ≡ id
  found_id h = key-find (λ d. d.id) id c.tables.documents d h

  row_of_found :
      find_document id c.tables ≡ some d → any_row (λ b. b.id == d.id) c.tables.documents ≡ true
  row_of_found h = rw (found_id h) (any_row_of_find (λ d. d.id) id c.tables.documents d h)

  pub update-Quiet :
      Quiet c
      → find_document id c.tables ≡ some d
      → version_taken version_id c.tables ≡ false
      → name_taken id k c.tables ≡ false
      → update_with version_id id k by c ≡ (ok (some new_document), ticked after_update)
  unfolding update_document
  update-Quiet q found fresh free = ground (
    arith,
    get_document_quiet id c (q c.tick),
    create_version_quiet version_id by d (ticked c) (q (c.tick + 1)) (q (c.tick + 1 + 1)) fresh
        (row_of_found found),
    set_document_quiet before_update (q (c.tick + 1 + 1 + 1)) free,
    get_document_quiet id after_update (q (c.tick + 1 + 1 + 1 + 1)),
    find-update_self (λ d. d.id) id (replaced k (now_at c (c.tick + 1 + 1 + 1))) (λ a. refl)
        c.tables.documents d found,
  )

  pub update_taken :
      Quiet c
      → find_document id c.tables ≡ some d
      → version_taken version_id c.tables ≡ false
      → name_taken id k c.tables ≡ true
      → update_with version_id id k by c ≡ (
        err (
            wrap "update document"
              (driver (c.engine.unique_violation "documents.bucket_id, documents.name"))),
        ticked before_update,
      )
  unfolding update_document
  update_taken q found fresh taken = ground (
    arith,
    get_document_quiet id c (q c.tick),
    create_version_quiet version_id by d (ticked c) (q (c.tick + 1)) (q (c.tick + 1 + 1)) fresh
        (row_of_found found),
    set_document_taken before_update (q (c.tick + 1 + 1 + 1)) taken,
  )

  pub update_missing :
      Quiet c
      → find_document id c.tables ≡ none
      → update_with version_id id k by c
        ≡ (err (plain (append "document not found: " id)), ticked c)
  unfolding update_document
  update_missing q missing = ground (arith, get_document_quiet id c (q c.tick))

-- `update_document` for a live document, where the driver does not fail, the snapshot's identifier
-- is new and no other document of the bucket has the name: it returns the document with the new
-- content and the next version; the versions gain the snapshot of the document as it was; and every
-- other document is found as before.
pub update_document_lem :
    (version_id id : String) (k : Content) (by : String) (c : Conn Tables) (d : Document)
    (j : String)
    → Quiet c
    → find_document id c.tables ≡ some d
    → version_taken version_id c.tables ≡ false
    → name_taken id k c.tables ≡ false
    → let (r, c') = update_with version_id id k by c in
      let d' = replaced k (now_at c (c.tick + 1 + 1 + 1)) d in
      (r ≡ ok (some d'))
      × (c'.tables.document_versions
          ≡ c.tables.document_versions ++ snapshot_of version_id by (now_at c (c.tick + 1)) d ∷ [])
      × (find_document j c'.tables ≡ (if j == id then some d' else find_document j c.tables))
update_document_lem version_id id k by c d j q found fresh free =
    rw (update-Quiet version_id id k by c d q found fresh free) (
      refl,
      refl,
      find_updated version_id id k by c d j (now_at c (c.tick + 1 + 1 + 1)) c.tables found,
    )

-- `update_document` is not atomic: where another row of the bucket, be it deleted, has the new name,
-- it reports the error of the UPDATE and leaves the document alone, but the snapshot of the
-- unchanged document stays among the versions.
pub update_document_not_atomic :
    (version_id id : String) (k : Content) (by : String) (c : Conn Tables) (d : Document)
    → Quiet c
    → find_document id c.tables ≡ some d
    → version_taken version_id c.tables ≡ false
    → name_taken id k c.tables ≡ true
    → let (r, c') = update_with version_id id k by c in
      (r
        ≡ err (
            wrap "update document"
              (driver (c.engine.unique_violation "documents.bucket_id, documents.name"))))
      × (c'.tables ≡ with_version (snapshot_of version_id by (now_at c (c.tick + 1)) d) c.tables)
update_document_not_atomic version_id id k by c d q found fresh taken =
    rw (update_taken version_id id k by c d q found fresh taken) (refl, refl)
