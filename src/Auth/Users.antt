-- ===== src/Auth/Users.antt =====
-- internal/auth/store.go: users, and the bootstrap of the first administrator; password.go.
pub mod Effects
pub mod Safety
use tinydm.Prelude.{
  ℕ, zero, suc, String, Bool, true, false, not, ◌&&◌, ◌||◌, Option, none, some, List, [], ◌∷◌, map,
  length, take, drop, head?, eqb, ltb, if◌then◌else◌, ◌==◌,
}
use tinydm.Prelude.Int.{ℤ, pos, pos_part, ltb_ℤ, leb_ℤ}
use tinydm.Sql.{
  Engine, Error, Result, ok, err, driver, plain, wrap, Exec, pure, raise, on_error, statement,
  query, exec, ◌>>=◌, ◌>>◌,
}
use tinydm.Sql.Table.{Row, select, update_live, mark_live_deleted, insert, any_row}
use tinydm.Sql.Table.Find.{find}
use tinydm.Schema.{UserRow, Tables, Store}
use tinydm.Repo.{order_by}
use tinydm.Auth.{UserType, user_type_admin, user_type_user}

pub record User : Type 0 where
  pub id : String
  pub username : String
  pub email : String
  pub first_name : String
  pub last_name : String
  pub password_hash : String
  pub user_type : UserType
  pub is_active : Bool

-- The columns of a row, as `scanUser` reads them.
abbrev pub to_user : UserRow → User
to_user r = record {
  id = r.id;
  username = r.username;
  email = r.email;
  first_name = r.first_name;
  last_name = r.last_name;
  password_hash = r.password_hash;
  user_type = r.user_type;
  is_active = eqb r.is_active 1;
}

abbrev pub scan_user : Option UserRow → Option User
scan_user none = none
scan_user (some r) = some (to_user r)

-- `GetUserByUsername`
unfoldable pub get_user_by_username : String → Store (Option User)
get_user_by_username username = query (λ _ t. scan_user (find (λ u. u.username) username t.users))

-- `GetUserByID`
unfoldable pub get_user_by_id : String → Store (Option User)
get_user_by_id id = query (λ _ t. scan_user (find (λ u. u.id) id t.users))

-- `GetUserByEmail`
unfoldable get_user_by_email : String → Store (Option User)
get_user_by_email email = query (λ _ t. scan_user (find (λ u. u.email) email t.users))

abbrev new_user : String → String → String → String → String → String → UserType → UserRow
new_user id username email first_name last_name password_hash user_type = record {
  id = id;
  username = username;
  email = email;
  first_name = first_name;
  last_name = last_name;
  password_hash = password_hash;
  user_type = user_type;
  is_active = 1;
}

-- The INSERT of `CreateUser`: `id` is the primary key, `username` is UNIQUE, also among deleted rows,
-- and `user_type` has a CHECK. A new user is active.
abbrev insert_user :
    String
    → String
    → String
    → String
    → String
    → String
    → UserType
    → Engine
    → String
    → Tables
    → Result (Unit {0}) × Tables
insert_user id username email first_name last_name password_hash user_type engine now t =
    if not (user_type == user_type_admin) && not (user_type == user_type_user)
    then (err (driver (engine.check_violation "users.user_type")), t)
    else if any_row (λ u. u.id == id) t.users
    then (err (driver (engine.unique_violation "users.id")), t)
    else if any_row (λ u. u.username == username) t.users
    then (err (driver (engine.unique_violation "users.username")), t)
    else (
      ok tt,
      record t {
        users =
            insert (new_user id username email first_name last_name password_hash user_type)
              t.users;
      },
    )

-- `CreateUser`; the new identifier is the argument `id`.
unfoldable pub create_user :
    String → String → String → String → String → String → UserType → Store (Option User)
create_user id username email first_name last_name password_hash user_type = do
  on_error (wrap "create user")
      (statement (insert_user id username email first_name last_name password_hash user_type))
  get_user_by_id id

-- An UPDATE of the live user with the identifier, and the number of rows that it meets.
abbrev update_user : String → (UserRow → UserRow) → Store ℕ
update_user id f = statement (λ _ _ t. (
  ok (length (select (λ u. u.id == id) t.users)),
  record t { users = update_live (λ u. u.id == id) f t.users },
))

abbrev pub affected : String → ℕ → Store (Unit {0})
affected message zero = raise (plain message)
affected message (suc n) = pure tt

-- `ChangePassword`
unfoldable pub change_password : String → String → Store (Unit {0})
change_password user_id new_hash = do
  n ←
      on_error (wrap "change password")
        (update_user user_id (λ u. record u { password_hash = new_hash }))
  affected "user not found" n

-- `CountUsers`
unfoldable count_users : Store ℕ
count_users = query (λ _ t. length (select (λ _. true) t.users))

-- The limit and the offset as the lists of this package correct them.
abbrev pub list_limit : ℤ → ℤ
list_limit limit =
    let defaulted = if leb_ℤ limit (pos 0) then pos 50 else limit in
    if ltb_ℤ (pos 500) defaulted then pos 500 else defaulted

abbrev pub list_offset : ℤ → ℤ
list_offset offset = if ltb_ℤ offset (pos 0) then pos 0 else offset

-- `ListUsers`
unfoldable pub list_users : ℤ → ℤ → Store (List User × ℕ)
list_users limit offset = do
  total ← on_error (wrap "count users") (query (λ _ t. length (select (λ _. true) t.users)))
  rows ← on_error (wrap "list users") (
      query (λ engine t. map to_user (
        take (pos_part (list_limit limit)) (
          drop (pos_part (list_offset offset)) (
            order_by (λ u v. engine.text_le u.username v.username) (select (λ _. true) t.users))))))
  pure (rows, total)

abbrev pub is_admin_user : Option User → Bool
is_admin_user none = false
is_admin_user (some u) = u.user_type == user_type_admin

abbrev refuse_if : Bool → String → Store (Unit {0})
refuse_if true message = raise (plain message)
refuse_if false message = pure tt

-- `SetUserActive`
unfoldable pub set_user_active : String → Bool → Store (Unit {0})
set_user_active id true = exec (λ _ _ t. record t {
  users = update_live (λ u. u.id == id) (λ u. record u { is_active = 1 }) t.users;
})
set_user_active id false = do
  u ← on_error (wrap "set active") (get_user_by_id id)
  refuse_if (is_admin_user u) "admin accounts cannot be deactivated"
  exec (λ _ _ t. record t {
    users = update_live (λ u. u.id == id) (λ u. record u { is_active = 0 }) t.users;
  })

-- `DeleteUser`
unfoldable pub delete_user : String → Store (Unit {0})
delete_user id = do
  u ← on_error (wrap "delete user") (get_user_by_id id)
  refuse_if (is_admin_user u) "admin account cannot be deleted"
  exec (λ _ now t. record t { users = mark_live_deleted (λ u. u.id == id) now t.users })

-- `HashPassword`; `generate` is bcrypt.GenerateFromPassword at the cost in force.
unfoldable pub hash_password : (String → Result String) → String → Result String
hash_password generate password =
    if password == ""
    then err (plain "password must not be empty")
    else elim (generate password) [ ok hash ↦ ok hash | err e ↦ err (wrap "hash password" e) ]

abbrev lift : {A : Type 0} → Result A → Store A
lift r c = (r, c)

-- `EnsureAdminUser`
unfoldable ensure_admin_user :
    (String → Result String) → String → String → String → String → Store (Unit {0})
ensure_admin_user generate id username email password = do
  n ← on_error (wrap "count users") count_users
  if ltb 0 n then pure tt else do
    hash ← on_error (wrap "hash bootstrap password") (lift (hash_password generate password))
    user ←
        on_error (wrap "create bootstrap admin")
          (create_user id username email "Admin" "" hash user_type_admin)
    pure tt
