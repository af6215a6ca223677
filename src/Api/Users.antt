-- ===== src/Api/Users.antt =====
-- internal/api/users.go: the administrator's handlers for users and API keys.
pub mod Laws
use tinydm.Prelude.{ℕ, String, Option, none, some, List, map, ltb, if◌then◌else◌, ◌==◌}
use tinydm.Prelude.Texts.{byte_len}
use tinydm.Sql.{Result, ok, err, error_text}
use tinydm.Schema.{ApiKey}
use tinydm.Auth.Users.{User, list_users, change_password, hash_password}
use tinydm.Auth.ApiKeys.{list_api_keys, create_api_key, revoke_api_key}
use tinydm.Auth.Token.{generate_api_key}
use tinydm.Api.{
  Request, Reply, json, error_body, no_content, panicked, users, api_keys, created_key, SafeUser,
  SafeKey, Handler, page_params, paged_meta, answer, internal, internal_error,
}

abbrev safe_user : User → SafeUser
safe_user u = record {
  id = u.id;
  username = u.username;
  email = u.email;
  first_name = u.first_name;
  last_name = u.last_name;
  user_type = u.user_type;
  is_active = u.is_active;
}

abbrev safe_key : ApiKey → SafeKey
safe_key k = record { id = k.id; name = k.name; key_prefix = k.key_prefix }

-- `UserHandler.ListUsers`
unfoldable pub list : Handler
list r c =
    let page = page_params r in
    answer internal
      (λ found.
        json 200 (users (map safe_user found.0) (paged_meta found.1 page.limit page.offset)))
      (list_users page.limit page.offset c)

-- `UserHandler.ChangePassword`; `generate` is bcrypt's.
unfoldable pub change : (String → Result String) → Option String → Handler
change generate none r c = (error_body 400 "invalid request body", c)
change generate (some password) r c =
    if ltb (byte_len password) 8
    then (error_body 400 "password must be at least 8 characters", c)
    else elim (hash_password generate password) [
      | err e ↦ (internal_error, c)
      | ok hash ↦
          answer (λ e. error_body 404 (error_text e)) (λ _. no_content)
            (change_password (r.url_param "userID") hash c)
    ]

-- `UserHandler.ListAPIKeys`
unfoldable list_keys : Handler
list_keys r c =
    let page = page_params r in
    answer internal
      (λ found.
        json 200 (api_keys (map safe_key found.0) (paged_meta found.1 page.limit page.offset)))
      (list_api_keys page.limit page.offset c)

-- The principal's identifier; the zero value of `Principal` has the empty text.
abbrev pub principal_id : Request → String
principal_id r = elim r.principal [ none ↦ "" | some p ↦ p.id ]

-- A nil key panics at its first field.
abbrev created : String → Option ApiKey → Reply
created plaintext none = panicked
created plaintext (some k) = json 201 (created_key (safe_key k) plaintext)

-- `UserHandler.CreateAPIKey`; `read` is what the random bytes are, and `id` the new identifier. The
-- key belongs to the principal and has no expiry.
unfoldable pub create_key : (String → List ℕ) → Result (List ℕ) → String → Option String → Handler
create_key sum256 read id none r c = (error_body 400 "invalid request body", c)
create_key sum256 read id (some name) r c =
    if name == ""
    then (error_body 400 "name is required", c)
    else elim (generate_api_key sum256 read) [
      | err e ↦ (error_body 500 "key generation failed", c)
      | ok g ↦
          answer internal (created g.plaintext)
            (create_api_key id (some (principal_id r)) name g.hash g.prefix none c)
    ]

-- `UserHandler.RevokeAPIKey`
unfoldable pub revoke : Handler
revoke r c =
    answer (λ e. error_body 404 (error_text e)) (λ _. no_content)
      (revoke_api_key (r.url_param "keyID") c)
