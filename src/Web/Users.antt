-- ===== src/Web/Users.antt =====
-- internal/web/handlers.go: the users.
pub mod Laws
use tinydm.Prelude.{String, Bool, true, false, ◌||◌, Option, none, some, ltb, if◌then◌else◌, ◌==◌}
use tinydm.Prelude.Texts.{byte_len, trim_space}
use tinydm.Sql.{Error, Result, ok, err, error_text, Conn}
use tinydm.Schema.{Tables}
use tinydm.Storage.{Files}
use tinydm.Auth.{UserType, user_type_admin, user_type_user}
use tinydm.Auth.Users.{User, get_user_by_id, set_user_active, change_password, hash_password}
use tinydm.Web.{
  WebRequest, WebReply, http_error, not_found, header, partial, user_row, change_password_row, Site,
  WebHandler,
}
use tinydm.Web.Documents.{failed_with}
use tinydm.Auth.Users

-- The row of the user after a change
abbrev refreshed : Files → Result (Option User) × Conn Tables → WebReply × Site
refreshed files (err e, c) = (http_error "user not found" 404, (files, c))
refreshed files (ok none, c) = (http_error "user not found" 404, (files, c))
refreshed files (ok (some u), c) = (partial (user_row (some u)), (files, c))

-- `if err != nil { http.Error }`, and the row
abbrev row_after :
    (Error → WebReply) → String → Files → Result (Unit {0}) × Conn Tables → WebReply × Site
row_after failed id files (err e, c) = (failed e, (files, c))
row_after failed id files (ok _, c) = refreshed files (get_user_by_id id c)

abbrev shown : (User → WebReply) → Files → Result (Option User) × Conn Tables → WebReply × Site
shown f files (err e, c) = (not_found, (files, c))
shown f files (ok none, c) = (not_found, (files, c))
shown f files (ok (some u), c) = (f u, (files, c))

-- `userRow`
unfoldable user_row_partial : WebHandler
user_row_partial r (files, c) =
    shown (λ u. partial (user_row (some u))) files (get_user_by_id (r.url_param "userID") c)

-- `passwordForm`
unfoldable password_form : WebHandler
password_form r (files, c) =
    shown (λ u. partial (change_password_row u)) files (get_user_by_id (r.url_param "userID") c)

abbrev user_type_of : String → UserType
user_type_of role = if role == "admin" then user_type_admin else user_type_user

abbrev created_row : Files → Result (Option User) × Conn Tables → WebReply × Site
created_row files (err e, c) = (failed_with "create failed: " e, (files, c))
created_row files (ok u, c) = (partial (user_row u), (files, c))

-- A field of the form that has to be given is not.
abbrev is_incomplete : WebRequest → Bool
is_incomplete r =
    r.form_value "username" == ""
    || (r.form_value "email" == ""
        || (r.form_value "password" == ""
            || (trim_space (r.form_value "first_name") == ""
                || trim_space (r.form_value "last_name") == "")))

module _ (generate : String → Result String) where
  abbrev create_hashed : String → WebRequest → Result String → Site → WebReply × Site
  create_hashed id r (err e) s = (http_error "internal error" 500, s)
  create_hashed id r (ok hash) (files, c) = created_row files (
      tinydm.Auth.Users.create_user id (r.form_value "username") (r.form_value "email")
        (trim_space (r.form_value "first_name")) (trim_space (r.form_value "last_name")) hash
        (user_type_of (r.form_value "role")) c)

  -- `createUser`; `id` is the new identifier, and `generate` is bcrypt's.
  unfoldable create_user_web : String → WebHandler
  create_user_web id r s =
      if is_incomplete r
      then (http_error "all fields required" 400, s)
      else create_hashed id r (hash_password generate (r.form_value "password")) s

  abbrev change_hashed : String → Result String → Site → WebReply × Site
  change_hashed id (err e) s = (http_error "internal error" 500, s)
  change_hashed id (ok hash) (files, c) =
      row_after (λ e. http_error (error_text e) 404) id files (change_password id hash c)

  -- `changeUserPassword`
  unfoldable change_user_password : WebHandler
  change_user_password r s =
      let password = r.form_value "password" in
      if ltb (byte_len password) 8
      then (http_error "password must be at least 8 characters" 400, s)
      else change_hashed (r.url_param "userID") (hash_password generate password) s

-- `activateUser`
unfoldable activate_user : WebHandler
activate_user r (files, c) =
    let id = r.url_param "userID" in
    row_after (λ e. http_error "activate failed" 500) id files (set_user_active id true c)

-- `deactivateUser`
unfoldable deactivate_user : WebHandler
deactivate_user r (files, c) =
    let id = r.url_param "userID" in
    row_after (λ e. http_error (error_text e) 403) id files (set_user_active id false c)

abbrev pub deleted : Files → Result (Unit {0}) × Conn Tables → WebReply × Site
deleted files (err e, c) = (http_error (error_text e) 403, (files, c))
deleted files (ok _, c) = (header 200, (files, c))

-- `deleteUser`
unfoldable delete_user_web : WebHandler
delete_user_web r (files, c) =
    deleted files (tinydm.Auth.Users.delete_user (r.url_param "userID") c)
