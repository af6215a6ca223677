-- ===== src/Repo/Versions/Snapshot.antt =====
-- What an update of internal/repo/store.go is given and leaves, and its snapshot.
use tinydm.Sql.Table.Find.{find}
use tinydm.Prelude.{
  ℕ, ◌+◌, String, ◌≡◌, refl, Bool, true, false, Option, none, some, List, [], ◌∷◌, ◌++◌, arith, any,
  head?, ◌==◌, eq_iff,
}
use tinydm.Sql.{ok, Conn}
use tinydm.Sql.Quiet.{ticked}
use tinydm.Sql.Table.{select_all, update_live, update_clashes, any_row}
use tinydm.Schema.{Store, Document, DocumentVersion, Tables}
use tinydm.Repo.Documents.{get_document, same_columns}
use tinydm.Repo.Versions.{create_document_version, replace_content, update_document}

-- The live document with the identifier.
abbrev pub find_document : String → Tables → Option Document
find_document id t = find (λ d. d.id) id t.documents

-- The version with the identifier is taken.
abbrev pub version_taken : String → Tables → Bool
version_taken id t = any (λ v. v.id == id) t.document_versions

-- The snapshot of a document's content.
abbrev pub snapshot_of : String → String → String → Document → DocumentVersion
snapshot_of version_id by now d = record {
  id = version_id;
  document_id = d.id;
  version = d.version;
  content_type = d.content_type;
  size = d.size;
  checksum = d.checksum;
  storage_key = d.storage_key;
  created_by = by;
  created_at = now;
}

abbrev pub with_version : DocumentVersion → Tables → Tables
with_version v t = record t { document_versions = t.document_versions ++ v ∷ [] }

abbrev pub now_at : Conn Tables → ℕ → String
now_at c n = (c.world n).now

pub get_document_quiet :
    (id : String) (c : Conn Tables)
    → (c.world c.tick).fault ≡ none
    → get_document id c ≡ (ok (find_document id c.tables), ticked c)
unfolding get_document
get_document_quiet id c q = ground arith

pub head?-select_new :
    (id : String) (v : DocumentVersion) (vs : List DocumentVersion)
    → any (λ w. w.id == id) vs ≡ false
    → v.id ≡ id
    → head? (select_all (λ w. w.id == id) (vs ++ v ∷ [])) ≡ some v
unfolding select_all
head?-select_new id v [] h e = ground (arith, eq_iff v.id id)
head?-select_new id v (w ∷ vs) h e = ground (arith, head?-select_new id v vs)

pub create_version_quiet :
    (version_id by : String) (d : Document) (c : Conn Tables)
    → (c.world c.tick).fault ≡ none
    → (c.world (c.tick + 1)).fault ≡ none
    → version_taken version_id c.tables ≡ false
    → any_row (λ b. b.id == d.id) c.tables.documents ≡ true
    → let v = snapshot_of version_id by (now_at c c.tick) d in
      create_document_version version_id d.id d.version d.content_type d.size d.checksum
        d.storage_key by c
      ≡ (ok v, record c { tables = with_version v c.tables; tick = c.tick + 1 + 1 })
unfolding create_document_version
create_version_quiet version_id by d c q q' fresh here =
    let v = snapshot_of version_id by (now_at c c.tick) d in
    ground (arith, head?-select_new version_id v c.tables.document_versions fresh refl)

-- The new content, and the texts that it is given by.
pub record Content : Type 0 where
  pub name : String
  pub content_type : String
  pub size : ℕ
  pub checksum : String
  pub storage_key : String

abbrev pub replaced : Content → String → Document → Document
replaced k now = replace_content k.name k.content_type k.size k.checksum k.storage_key now

-- Another row, deleted or not, of the document's bucket has the name.
abbrev pub name_taken : String → Content → Tables → Bool
name_taken id k t = update_clashes (λ d. d.id == id) (replaced k "") same_columns t.documents

abbrev pub update_with : String → String → Content → String → Store (Option Document)
update_with version_id id k by =
    update_document version_id id k.name k.content_type k.size k.checksum k.storage_key by

-- The tables after an update that went through: `t₀` and `t₁` are the times of the snapshot and of
-- the update.
abbrev pub updated :
    String → String → Content → String → String → String → Document → Tables → Tables
updated version_id id k by then_ now d t = record t {
  documents = update_live (λ d. d.id == id) (replaced k now) t.documents;
  document_versions = t.document_versions ++ snapshot_of version_id by then_ d ∷ [];
}
