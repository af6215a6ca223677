-- ===== src/Web/Sessions.antt =====
-- internal/web/web.go and the login of internal/web/handlers.go: sessions in a cookie.
pub mod Laws
use tinydm.Prelude.{String, not, ◌||◌, Option, none, some, if◌then◌else◌, ◌==◌}
use tinydm.Prelude.Int.{ℤ, scale, wrap64}
use tinydm.Sql.{Result, ok, err, Conn}
use tinydm.Schema.{Tables}
use tinydm.Storage.{Files}
use tinydm.Auth.{Principal, user_type_admin}
use tinydm.Auth.Users.{User, get_user_by_id, get_user_by_username}
use tinydm.Auth.Token.{Claims, new_jwt, parse_jwt}
use tinydm.Auth.Middleware.{World}
use tinydm.Web.{
  WebRequest, WebReply, redirect, login_form, http_error, untouched, cleared, session, Site,
  WebHandler,
}

abbrev pub session_principal : User → Principal
session_principal u = record {
  id = u.id;
  username = u.username;
  user_type = u.user_type;
  auth_method = "";
}

abbrev refused : Files → Conn Tables → WebReply × Site
refused files c = (redirect cleared "/app/login", (files, c))

-- The end of `requireSession`, by the user that the claims name.
abbrev with_user :
    WebHandler → WebRequest → Files → Result (Option User) × Conn Tables → WebReply × Site
with_user next r files (err e, c) = refused files c
with_user next r files (ok none, c) = refused files c
with_user next r files (ok (some u), c) =
    if not u.is_active
    then refused files c
    else next (record r { principal = session_principal u }) (files, c)

abbrev with_claims : WebHandler → WebRequest → Result Claims → Site → WebReply × Site
with_claims next r (err e) (files, c) = refused files c
with_claims next r (ok claims) (files, c) = with_user next r files (get_user_by_id claims.subject c)

module _ (w : World) (secret : String) where
  abbrev with_cookie : WebHandler → WebRequest → Option String → Site → WebReply × Site
  with_cookie next r none s = (redirect untouched "/app/login", s)
  with_cookie next r (some value) s =
      if value == ""
      then (redirect untouched "/app/login", s)
      else with_claims next r (parse_jwt w.jwt w.time_now secret value) s

  -- `requireSession`
  unfoldable pub require_session : WebHandler → WebHandler
  require_session next r s = with_cookie next r r.cookie s

-- `requireAdmin`
unfoldable web_require_admin : WebHandler → WebHandler
web_require_admin next r s =
    if not (r.principal.user_type == user_type_admin)
    then (http_error "Forbidden" 403, s)
    else next r s

module _ (w : World) (secret : String) (expiry_minutes : ℤ) where
  abbrev start_session : User → WebReply
  start_session u =
      elim (new_jwt w.jwt w.time_now secret expiry_minutes u.id u.username u.user_type) [
        | err e ↦ login_form "Could not create session." ""
        | ok token ↦ redirect (session token (wrap64 (scale 60 expiry_minutes))) "/app/"
      ]

  abbrev try_login : String → String → Result (Option User) → WebReply
  try_login username password (err e) = login_form "Invalid credentials." username
  try_login username password (ok none) = login_form "Invalid credentials." username
  try_login username password (ok (some u)) =
      if not u.is_active
      then login_form "Invalid credentials." username
      else if not (w.compare_hash_and_password u.password_hash password)
      then login_form "Invalid credentials." username
      else start_session u

  -- `loginSubmit`
  unfoldable pub login_submit : WebHandler
  login_submit r (files, c) =
      let username = r.form_value "username" in
      let password = r.form_value "password" in
      let (found, c') = get_user_by_username username c in
      if username == "" || password == ""
      then (login_form "Username and password are required." username, (files, c))
      else (try_login username password found, (files, c'))

-- `logout`
unfoldable pub logout : WebHandler
logout r s = (redirect cleared "/app/login", s)
