-- ===== src/Auth/Middleware.antt =====
-- internal/auth/middleware.go: who calls. A request carries the principal that the context holds.
-- bcrypt's comparison, base64's decoder, golang-jwt and SHA-256 are parameters.
pub mod Keys
pub mod Basic
pub mod Bearer
use Prim.Native.String.{◌++◌}
use tinydm.Prelude.{
  ℕ, String, Bool, true, false, not, ◌&&◌, ◌||◌, Option, none, some, List, ltb, if◌then◌else◌, ◌==◌,
}
use tinydm.Prelude.Texts.{has_prefix, trim_prefix, cut}
use tinydm.Sql.{Error, Result, ok, err, plain, wrap, Conn, Exec, pure, raise, on_error, ◌>>=◌, ◌>>◌}
use tinydm.Schema.{ApiKey, Tables, Store}
use tinydm.Auth.{
  UserType, user_type_admin, AuthMethod, auth_method_basic, auth_method_bearer, auth_method_api_key,
  Principal, is_admin,
}
use tinydm.Auth.Users.{User, get_user_by_id, get_user_by_username}
use tinydm.Auth.ApiKeys.{get_api_key_by_hash, touch_api_key}
use tinydm.Auth.Token.{Claims, Jwt, parse_jwt, hash_api_key}

pub record Request : Type 0 where
  pub header : String → String
  pub principal : Option Principal

pub record Response : Type 0 where
  pub status : ℕ
  pub content_type : String
  pub body : String

abbrev pub Handler : Type 0
Handler = Request → Conn Tables → Response × Conn Tables

-- `http.Error`: it sets the content type, whatever the header said before.
abbrev pub http_error : String → ℕ → Response
http_error message status = record {
  status = status;
  content_type = "text/plain; charset=utf-8";
  body = message ++ "\n";
}

-- `RequireAuth`
unfoldable pub require_auth : Handler → Handler
require_auth next r c = elim r.principal [
  | none ↦ (http_error "{\"error\":\"authentication required\"}" 401, c)
  | some p ↦ next r c
]

-- `RequireAdmin`
unfoldable pub require_admin : Handler → Handler
require_admin next r c = elim r.principal [
  | none ↦ (http_error "{\"error\":\"authentication required\"}" 401, c)
  | some p ↦
      if not (is_admin p)
      then (http_error "{\"error\":\"admin access required\"}" 403, c)
      else next r c
]

-- The code outside the repository, and the time of the request.
pub record World : Type 0 where
  pub jwt : Jwt
  pub decode_string : String → Result String
  pub compare_hash_and_password : String → String → Bool
  pub sum256 : String → List ℕ
  pub time_now : ℕ

abbrev lift : {A : Type 0} → Result A → Store A
lift r c = (r, c)

abbrev pub user_principal : AuthMethod → User → Principal
user_principal method u = record {
  id = u.id;
  username = u.username;
  user_type = u.user_type;
  auth_method = method;
}

-- A key as a principal of its own.
abbrev pub key_principal : ApiKey → Principal
key_principal k = record {
  id = k.id;
  username = k.name;
  user_type = user_type_admin;
  auth_method = auth_method_api_key;
}

abbrev claims_principal : Claims → Principal
claims_principal claims = record {
  id = claims.subject;
  username = claims.username;
  user_type = claims.user_type;
  auth_method = auth_method_bearer;
}

abbrev some_text : Option (String × String) → Store (String × String)
some_text none = raise (plain "basic: expected username:password")
some_text (some parts) = pure parts

abbrev active_or_refused : Option User → Store User
active_or_refused none = raise (plain "basic: user not found or inactive")
active_or_refused (some u) =
    if u.is_active then pure u else raise (plain "basic: user not found or inactive")

abbrev checked : User → Bool → Store (Option Principal)
checked u false = raise (plain "basic: invalid password")
checked u true = pure (some (user_principal auth_method_basic u))

module _ (w : World) where
  -- `verifyJWT`
  unfoldable pub verify_jwt : String → String → Store (Option Principal)
  verify_jwt secret token_str = elim (parse_jwt w.jwt w.time_now secret token_str) [
    | err e ↦ raise (wrap "jwt" e)
    | ok claims ↦ pure (some (claims_principal claims))
  ]

  -- `verifyBasic`
  unfoldable pub verify_basic : String → Store (Option Principal)
  verify_basic encoded = do
    b ← on_error (wrap "basic: decode") (lift (w.decode_string encoded))
    parts ← some_text (cut b ":")
    user ← on_error (wrap "basic: lookup user") (get_user_by_username parts.0)
    u ← active_or_refused user
    checked u (w.compare_hash_and_password u.password_hash parts.1)

  -- The key, or why it is not accepted.
  unfoldable pub usable_key : Option ApiKey → Store ApiKey
  usable_key none = raise (plain "apikey: not found")
  usable_key (some k) = elim k.revoked_at [
    | some t ↦ raise (plain "apikey: revoked")
    | none ↦ elim k.expires_at [
      | none ↦ pure k
      | some e ↦ if ltb e w.time_now then raise (plain "apikey: expired") else pure k
    ]
  ]

  -- `if err == nil && user != nil && user.IsActive { … }`, and what follows it.
  unfoldable owner_or_key : ApiKey → Result (Option User) → Principal
  owner_or_key k (err e) = key_principal k
  owner_or_key k (ok none) = key_principal k
  owner_or_key k (ok (some u)) =
      if u.is_active then user_principal auth_method_api_key u else key_principal k

  unfoldable pub key_owner : ApiKey → Store (Option Principal)
  unfolding owner_or_key
  key_owner k c = elim k.user_id [
    | none ↦ (ok (some (key_principal k)), c)
    | some user_id ↦ let (r, c') = get_user_by_id user_id c in (ok (some (owner_or_key k r)), c')
  ]

  -- The error of a call is dropped.
  abbrev ignored : Store (Unit {0}) → Store (Unit {0})
  ignored m c = let (r, c') = m c in (ok tt, c')

  -- `verifyAPIKey`. The timestamp is written by a goroutine; here it runs at once.
  unfoldable pub verify_api_key : String → Store (Option Principal)
  verify_api_key key = do
    found ← on_error (wrap "apikey: lookup") (get_api_key_by_hash (hash_api_key w.sum256 key))
    k ← usable_key found
    ignored (touch_api_key k.id)
    key_owner k

  -- `identify`
  unfoldable pub identify : Request → String → Store (Option Principal)
  identify r secret =
      let auth_header = r.header "Authorization" in
      let key = r.header "X-API-Key" in
      if has_prefix auth_header "Bearer "
      then verify_jwt secret (trim_prefix auth_header "Bearer ")
      else if has_prefix auth_header "Basic "
      then verify_basic (trim_prefix auth_header "Basic ")
      else if not (key == "")
      then verify_api_key key
      else pure none

  -- `WithPrincipal`, where there is one.
  abbrev with_principal : Request → Result (Option Principal) → Request
  with_principal r (ok (some p)) = record r { principal = some p }
  with_principal r (ok none) = r
  with_principal r (err e) = r

  -- `Authenticator`
  unfoldable authenticator : String → Handler → Handler
  authenticator secret next r c =
      let (found, c') = identify r secret c in next (with_principal r found) c'
