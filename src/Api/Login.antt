-- ===== src/Api/Login.antt =====
-- internal/api/auth.go: the exchange of a password for a token.
pub mod Laws
use tinydm.Prelude.{String, ◌||◌, not, Option, none, some, if◌then◌else◌, ◌==◌}
use tinydm.Prelude.Int.{ℤ}
use tinydm.Sql.{ok, err}
use tinydm.Auth.Users.{User, get_user_by_username}
use tinydm.Auth.Token.{new_jwt}
use tinydm.Auth.Middleware.{World}
use tinydm.Api.{
  Reply, json, error_body, login_response, me_response, Handler, answer, internal_error,
}

module _ (w : World) (secret : String) (expiry_minutes : ℤ) where
  -- What follows the check of the password.
  abbrev issue : User → Reply
  issue u = elim (new_jwt w.jwt w.time_now secret expiry_minutes u.id u.username u.user_type) [
    | err e ↦ error_body 500 "could not issue token"
    | ok token ↦ json 200 (login_response token u.id u.username u.user_type)
  ]

  abbrev credentials : String → Option User → Reply
  credentials password none = error_body 401 "invalid credentials"
  credentials password (some u) =
      if not u.is_active
      then error_body 401 "invalid credentials"
      else if not (w.compare_hash_and_password u.password_hash password)
      then error_body 401 "invalid credentials"
      else issue u

  -- `AuthHandler.Login`; the body has a name and a password.
  unfoldable pub login : Option (String × String) → Handler
  login none r c = (error_body 400 "invalid request body", c)
  login (some (username, password)) r c =
      if username == "" || password == ""
      then (error_body 400 "username and password are required", c)
      else answer (λ e. internal_error) (λ found. credentials password found)
          (get_user_by_username username c)

-- `AuthHandler.Me`
unfoldable pub me : Handler
me r c = elim r.principal [
  | none ↦ (error_body 401 "authentication required", c)
  | some p ↦ (json 200 (me_response p), c)
]
