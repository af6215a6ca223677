-- ===== src/Repo/Tags/Laws.antt =====
-- What `set_document_tags` of internal/repo/store.go leaves in the table.
use tinydm.Sql.Quiet.{statement_quiet, ticked, Quiet, transaction_quiet}
use tinydm.Prelude.{
  none, ℕ, ◌+◌, String, ◌≡◌, refl, ◌∙◌, Bool, true, ◌&&◌, ◌||◌, not, List, [], ◌∷◌, ◌++◌, arith,
  any, if◌then◌else◌, ◌==◌, eq_iff, Bool-cases, inl, inr,
}
use tinydm.Sql.{ok, err, Error, Conn, statement, ◌>>◌}
use tinydm.Sql.Laws.{transaction_atomic}
use tinydm.Sql.Table.{delete_rows, any_row}
use tinydm.Schema.{Tag, Tables}
use tinydm.Repo.Tags.{is_tag, insert_tag, insert_tags, clear_tags, set_document_tags}

-- The document has the tag.
abbrev pub has_tag : String → String → Tables → Bool
has_tag document_id tag t = any (is_tag document_id tag) t.document_tags

-- The document is a row, deleted or not.
abbrev pub has_document : String → Tables → Bool
has_document document_id t = any_row (λ d. d.id == document_id) t.documents

any_tag-append :
    (e h : String) (tags : List Tag) (r : Tag)
    → any (is_tag e h) (tags ++ r ∷ []) ≡ (is_tag e h r || any (is_tag e h) tags)
any_tag-append e h [] r = ground arith
any_tag-append e h (x ∷ tags) r = ground (arith, any_tag-append e h tags r)

any_tag-delete :
    (d e h : String) (tags : List Tag)
    → any (is_tag e h) (delete_rows (λ r. r.document_id == d) tags)
      ≡ (not (e == d) && any (is_tag e h) tags)
unfolding delete_rows
any_tag-delete d e h [] = ground arith
any_tag-delete d e h (r ∷ tags) =
    ground
      (arith, any_tag-delete d e h tags, eq_iff r.document_id e, eq_iff r.document_id d, eq_iff e d)

-- The table with the tag.
added : String → String → Tables → Tables
added d g t =
    if any (is_tag d g) t.document_tags
    then t
    else record t { document_tags = t.document_tags ++ record { document_id = d; tag = g } ∷ [] }

insert_tag-eq-added :
    (d g : String) (c : Conn Tables)
    → Quiet c
    → has_document d c.tables ≡ true
    → statement (insert_tag d g) c
      ≡ (ok tt, record c { tables = added d g c.tables; tick = c.tick + 1 })
unfolding insert_tag added
insert_tag-eq-added d g c q h = ground (arith, q c.tick)

any_tag_self :
    (d g e h : String) (tags : List Tag)
    → e ≡ d
    → h ≡ g
    → any (is_tag d g) tags ≡ any (is_tag e h) tags
any_tag_self d g e h tags p q = rw (p, q)

has_tag-added :
    (d g e h : String) (t : Tables)
    → has_tag e h (added d g t) ≡ ((e == d && h == g) || has_tag e h t)
unfolding added
has_tag-added d g e h t = ground (
  arith,
  any_tag-append e h t.document_tags (record { document_id = d; tag = g }),
  any_tag_self d g e h t.document_tags,
  eq_iff e d,
  eq_iff h g,
  eq_iff d e,
  eq_iff g h,
)

has_document-added : (d g e : String) (t : Tables) → has_document e (added d g t) ≡ has_document e t
unfolding added
has_document-added d g e t = ground arith

pub added_all : String → List String → Tables → Tables
added_all d [] t = t
added_all d (g ∷ tags) t = added_all d tags (if g == "" then t else added d g t)

has_tag-added_all :
    (d : String) (tags : List String) (e h : String) (t : Tables)
    → has_tag e h (added_all d tags t)
      ≡ ((e == d && (not (h == "") && any (λ g. h == g) tags)) || has_tag e h t)
unfolding added_all
has_tag-added_all d [] e h t = ground arith
has_tag-added_all d (g ∷ tags) e h t = ground (
  arith,
  has_tag-added_all d tags e h (if g == "" then t else added d g t),
  has_tag-added d g e h t,
  eq_iff h g,
  eq_iff h "",
  eq_iff g "",
)

insert_tags-Quiet :
    (d : String) (tags : List String) (c : Conn Tables)
    → Quiet c
    → has_document d c.tables ≡ true
    → (n : ℕ) × (insert_tags d tags c
        ≡ (ok tt, record c { tables = added_all d tags c.tables; tick = n }))
unfolding insert_tags added_all
insert_tags-Quiet d [] c q h = (c.tick, refl)
insert_tags-Quiet d (g ∷ tags) c q h = elim (Bool-cases (g == "")) [
  | inl empty ↦ rw empty (insert_tags-Quiet d tags c q h)
  | inr full ↦ rw full (
      rw (insert_tag-eq-added d g c q h) (
        insert_tags-Quiet d tags (record c { tables = added d g c.tables; tick = c.tick + 1 }) q
          (has_document-added d g d c.tables ∙ h)))
]

clear_tags_quiet :
    (d : String) (c : Conn Tables)
    → (c.world c.tick).fault ≡ none
    → clear_tags d c ≡ (
      ok tt,
      record c {
        tables = record c.tables {
          document_tags = delete_rows (λ r. r.document_id == d) c.tables.document_tags;
        };
        tick = c.tick + 1;
      },
    )
unfolding clear_tags
clear_tags_quiet d c q =
    statement_quiet c
      (λ _ _ t.
        (ok tt, record t { document_tags = delete_rows (λ r. r.document_id == d) t.document_tags }))
      q

pub set_document_tags-Quiet :
    (d : String) (tags : List String) (c : Conn Tables)
    → Quiet c
    → has_document d c.tables ≡ true
    → (n : ℕ) × (set_document_tags d tags c ≡ (
      ok tt,
      record c {
        tables = added_all d tags (record c.tables {
          document_tags = delete_rows (λ r. r.document_id == d) c.tables.document_tags;
        });
        tick = n;
      },
    ))
unfolding set_document_tags
set_document_tags-Quiet d tags c q h =
    let cleared = record c.tables {
      document_tags = delete_rows (λ r. r.document_id == d) c.tables.document_tags;
    } in
    let (n, e) =
      insert_tags-Quiet d tags (record c { tables = cleared; tick = c.tick + 1 + 1 }) q h in
    (
      n + 1,
      transaction_quiet c (clear_tags d >> insert_tags d tags) tt
          (record c { tables = added_all d tags cleared; tick = n }) (q c.tick)
          (rw (clear_tags_quiet d (ticked c) (q (c.tick + 1))) e) (q n),
    )

-- `set_document_tags` for a document that is a row, where the driver does not fail, succeeds; the
-- document then has exactly the texts of the list that are not empty, and every other document the
-- tags that it had.
pub set_document_tags_lem :
    (d : String) (tags : List String) (c : Conn Tables) (e h : String)
    → Quiet c
    → has_document d c.tables ≡ true
    → ((set_document_tags d tags c).0 ≡ ok tt)
      × (has_tag e h (set_document_tags d tags c).1.tables
          ≡ (if e == d then not (h == "") && any (λ g. h == g) tags else has_tag e h c.tables))
set_document_tags_lem d tags c e h q doc =
    let (n, same) = set_document_tags-Quiet d tags c q doc in
    let cleared = record c.tables {
      document_tags = delete_rows (λ r. r.document_id == d) c.tables.document_tags;
    } in
    rw same (
      refl,
      ground (
        arith,
        has_tag-added_all d tags e h cleared,
        any_tag-delete d e h c.tables.document_tags,
      ),
    )

-- If `set_document_tags` reports an error, whichever of its statements it comes from, no table has
-- changed.
pub set_document_tags_atomic :
    (d : String) (tags : List String) (c : Conn Tables) (e : Error)
    → (set_document_tags d tags c).0 ≡ err e
    → (set_document_tags d tags c).1.tables ≡ c.tables
unfolding set_document_tags
set_document_tags_atomic d tags c e h =
    transaction_atomic (clear_tags d >> insert_tags d tags) c e h
