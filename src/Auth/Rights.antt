-- ===== src/Auth/Rights.antt =====
-- internal/auth/store.go: the table of rights.
pub mod Laws
use tinydm.Prelude.{
  ℕ, String, Bool, true, false, not, ◌&&◌, ◌||◌, List, [], ◌∷◌, ◌++◌, map, length, any, eqb,
  if◌then◌else◌, ◌==◌,
}
use tinydm.Sql.{Engine, Result, ok, err, driver, wrap, on_error, statement, query, ◌>>=◌}
use tinydm.Sql.Table.{select_all, update_all, delete_rows}
use tinydm.Schema.{RightRow, Tables, Store}
use tinydm.Repo.{order_by}
use tinydm.Auth.Rbac.{Right}
use tinydm.Auth.Users.{affected}

abbrev bool_to_int : Bool → ℕ
bool_to_int true = 1
bool_to_int false = 0

-- The columns of a row, as `scanRights` reads them.
abbrev pub scan_right : RightRow → Right
scan_right r = record {
  principal_type = r.principal_type;
  principal_id = r.principal_id;
  resource_type = r.resource_type;
  resource_id = r.resource_id;
  can_create = eqb r.can_create 1;
  can_read = eqb r.can_read 1;
  can_update = eqb r.can_update 1;
  can_delete = eqb r.can_delete 1;
}

-- A group that the user is a member of.
abbrev in_group : String → String → Tables → Bool
in_group user_id group_id t =
    any (λ m. m.user_id == user_id && m.group_id == group_id) t.group_members

abbrev pub held_by_user : String → Tables → RightRow → Bool
held_by_user user_id t r =
    (r.principal_type == "user" && r.principal_id == user_id)
    || (r.principal_type == "group" && in_group user_id r.principal_id t)

-- `GetUserRights`. The query has no ORDER BY; here the rows come as they were inserted.
unfoldable pub get_user_rights : String → Store (List Right)
get_user_rights user_id =
    on_error (wrap "query rights")
      (query (λ _ t. map scan_right (select_all (held_by_user user_id t) t.rights)))

-- `GetAPIKeyRights`
unfoldable pub get_api_key_rights : String → Store (List Right)
get_api_key_rights api_key_id = on_error (wrap "get api key rights") (
    query (λ _ t.
      map scan_right
        (select_all (λ r. r.principal_type == "apikey" && r.principal_id == api_key_id) t.rights)))

abbrev UpsertRightParams : Type 0
UpsertRightParams = Right

-- The UNIQUE columns: the principal and the resource.
abbrev same_subject : String → String → String → String → RightRow → Bool
same_subject principal_type principal_id resource_type resource_id r =
    r.principal_type == principal_type
    && (r.principal_id == principal_id
        && (r.resource_type == resource_type && r.resource_id == resource_id))

abbrev subject_of : Right → RightRow → Bool
subject_of p = same_subject p.principal_type p.principal_id p.resource_type p.resource_id

abbrev bad_right : Right → Bool
bad_right p =
    not
      (p.principal_type == "user" || (p.principal_type == "group" || p.principal_type == "apikey"))
    || not (
        p.resource_type == "project"
        || (p.resource_type == "bucket" || p.resource_type == "document"))

abbrev right_row : String → Right → RightRow
right_row id p = record {
  id = id;
  principal_type = p.principal_type;
  principal_id = p.principal_id;
  resource_type = p.resource_type;
  resource_id = p.resource_id;
  can_create = bool_to_int p.can_create;
  can_read = bool_to_int p.can_read;
  can_update = bool_to_int p.can_update;
  can_delete = bool_to_int p.can_delete;
}

abbrev set_grants : Right → RightRow → RightRow
set_grants p r = record r {
  can_create = bool_to_int p.can_create;
  can_read = bool_to_int p.can_read;
  can_update = bool_to_int p.can_update;
  can_delete = bool_to_int p.can_delete;
}

-- The INSERT … ON CONFLICT … DO UPDATE of `UpsertRight`, with the CHECKs of the two types; `id` is the
-- primary key.
abbrev upsert_row : String → Right → Engine → String → Tables → Result (Unit {0}) × Tables
upsert_row id p engine now t =
    if bad_right p
    then (err (driver (engine.check_violation "rights")), t)
    else if any (subject_of p) t.rights
    then (ok tt, record t { rights = update_all (subject_of p) (set_grants p) t.rights })
    else if any (λ r. r.id == id) t.rights
    then (err (driver (engine.unique_violation "rights.id")), t)
    else (ok tt, record t { rights = t.rights ++ right_row id p ∷ [] })

-- `UpsertRight`; the new identifier is the argument `id`.
unfoldable pub upsert_right : String → UpsertRightParams → Store (Unit {0})
upsert_right id p = on_error (wrap "upsert right") (statement (upsert_row id p))

-- `DeleteRight`
unfoldable delete_right : String → String → String → String → Store (Unit {0})
delete_right principal_type principal_id resource_type resource_id = do
  let p = same_subject principal_type principal_id resource_type resource_id
  n ← on_error (wrap "delete right") (
      statement (λ _ _ t.
        (ok (length (select_all p t.rights)), record t { rights = delete_rows p t.rights })))
  affected "right not found" n

abbrev by_pair : Engine → (RightRow → String) → (RightRow → String) → RightRow → RightRow → Bool
by_pair engine f g r s =
    if f r == f s then engine.text_le (g r) (g s) else engine.text_le (f r) (f s)

-- `ListRights`
unfoldable list_rights : String → String → Store (List Right)
list_rights principal_type principal_id = on_error (wrap "list rights") (
    query (λ engine t. map scan_right (
      order_by (by_pair engine (λ r. r.resource_type) (λ r. r.resource_id)) (
        select_all (λ r. r.principal_type == principal_type && r.principal_id == principal_id)
          t.rights))))

-- `ListRightsByResource`
unfoldable list_rights_by_resource : String → String → Store (List Right)
list_rights_by_resource resource_type resource_id = on_error (wrap "list rights by resource") (
    query (λ engine t. map scan_right (
      order_by (by_pair engine (λ r. r.principal_type) (λ r. r.principal_id)) (
        select_all (λ r. r.resource_type == resource_type && r.resource_id == resource_id)
          t.rights))))
