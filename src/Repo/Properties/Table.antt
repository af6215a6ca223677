-- ===== src/Repo/Properties/Table.antt =====
-- The table of properties of internal/repo/store.go under single writes.
use tinydm.Prelude.{
  ◌+◌, String, ◌≡◌, refl, ap, true, false, ◌&&◌, not, Option, none, some, List, [], ◌∷◌, ◌++◌,
  arith, any, if◌then◌else◌, ◌==◌, eq_iff,
}
use tinydm.Sql.{ok, Engine, Conn, statement}
use tinydm.Sql.Like.{like}
use tinydm.Sql.Quiet.{Quiet}
use tinydm.Sql.Table.{delete_rows, update_all}
use tinydm.Schema.{Property, Tables}
use tinydm.Repo.Properties.{is_property, upsert_property}
use tinydm.Repo.Tags.Laws.{has_document}

abbrev value_in : String → String → List Property → Option String
value_in d k [] = none
value_in d k (r ∷ rows) = if is_property d k r then some r.value else value_in d k rows

-- The value of a document's property.
abbrev pub value_of : String → String → Tables → Option String
value_of d k t = value_in d k t.document_properties

-- The value that the last entry with the key gives. (A Go map has one entry for a key.)
abbrev pub last_value : String → List (String × String) → Option String
last_value h [] = none
last_value h ((k, v) ∷ props) = elim (last_value h props) [
  | some w ↦ some w
  | none ↦ if h == k then some v else none
]

abbrev pub or_else : Option String → Option String → Option String
or_else (some v) o = some v
or_else none o = o

pub value_in-append :
    (e h : String) (rows : List Property) (r : Property)
    → value_in e h (rows ++ r ∷ [])
      ≡ or_else (value_in e h rows) (if is_property e h r then some r.value else none)
value_in-append e h [] r = ground arith
value_in-append e h (x ∷ rows) r = ground (arith, value_in-append e h rows r)

pub like_key :
    (engine : Engine) (r : Property) (h : String)
    → r.key ≡ h
    → like engine "sys.%" r.key ≡ like engine "sys.%" h
like_key engine r h e = ap (like engine "sys.%") e

pub value_in-delete :
    (engine : Engine) (d e h : String) (rows : List Property)
    → value_in e h (delete_rows (λ r. r.document_id == d && not (like engine "sys.%" r.key)) rows)
      ≡ (if e == d && not (like engine "sys.%" h) then none else value_in e h rows)
unfolding delete_rows
value_in-delete engine d e h [] = ground arith
value_in-delete engine d e h (r ∷ rows) = ground (
  arith,
  value_in-delete engine d e h rows,
  like_key engine r h,
  eq_iff r.document_id e,
  eq_iff r.document_id d,
  eq_iff r.key h,
  eq_iff e d,
)

pub value_in-update :
    (d k v e h : String) (rows : List Property)
    → value_in e h (update_all (is_property d k) (λ r. record r { value = v }) rows)
      ≡ (if e == d && h == k && any (is_property d k) rows then some v else value_in e h rows)
unfolding update_all
value_in-update d k v e h [] = ground arith
value_in-update d k v e h (r ∷ rows) = ground (
  arith,
  value_in-update d k v e h rows,
  eq_iff r.document_id e,
  eq_iff r.document_id d,
  eq_iff r.key h,
  eq_iff r.key k,
  eq_iff e d,
  eq_iff h k,
)

-- The table with the property.
unfoldable pub put : String → String → String → Tables → Tables
put d k v t =
    if any (is_property d k) t.document_properties
    then record t {
      document_properties =
          update_all (is_property d k) (λ r. record r { value = v }) t.document_properties;
    }
    else record t {
      document_properties =
          t.document_properties ++ record { document_id = d; key = k; value = v } ∷ [];
    }

pub upsert_property-eq-put :
    (d k v : String) (c : Conn Tables)
    → Quiet c
    → has_document d c.tables ≡ true
    → statement (upsert_property d k v) c
      ≡ (ok tt, record c { tables = put d k v c.tables; tick = c.tick + 1 })
unfolding upsert_property put
upsert_property-eq-put d k v c q h = ground (arith, q c.tick)

pub value_in-none :
    (d k e h : String) (rows : List Property)
    → any (is_property d k) rows ≡ false
    → e ≡ d
    → h ≡ k
    → value_in e h rows ≡ none
value_in-none d k e h [] n p q = refl
value_in-none d k e h (r ∷ rows) n p q = ground (
  arith,
  value_in-none d k e h rows,
  eq_iff r.document_id e,
  eq_iff r.document_id d,
  eq_iff r.key h,
  eq_iff r.key k,
)

pub value_of-put :
    (d k v e h : String) (t : Tables)
    → value_of e h (put d k v t) ≡ (if e == d && h == k then some v else value_of e h t)
unfolding put
value_of-put d k v e h t = ground (
  arith,
  value_in-append e h t.document_properties (record { document_id = d; key = k; value = v }),
  value_in-update d k v e h t.document_properties,
  value_in-none d k e h t.document_properties,
  eq_iff e d,
  eq_iff h k,
  eq_iff d e,
  eq_iff k h,
)

pub has_document-put :
    (d k v e : String) (t : Tables) → has_document e (put d k v t) ≡ has_document e t
unfolding put
has_document-put d k v e t = ground arith

unfoldable pub put_all : String → List (String × String) → Tables → Tables
put_all d [] t = t
put_all d ((k, v) ∷ props) t = put_all d props (put d k v t)

pub value_of-put_all :
    (d : String) (props : List (String × String)) (e h : String) (t : Tables)
    → value_of e h (put_all d props t)
      ≡ (if e == d then or_else (last_value h props) (value_of e h t) else value_of e h t)
unfolding put_all
value_of-put_all d [] e h t = ground arith
value_of-put_all d ((k, v) ∷ props) e h t =
    ground (arith, value_of-put_all d props e h (put d k v t), value_of-put d k v e h t)
