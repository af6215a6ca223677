-- ===== src/Auth/ApiKeys.antt =====
-- internal/auth/store.go: API keys.
use mathlib.Core.List.{reverse}
use tinydm.Prelude.{
  ℕ, String, Bool, true, false, not, ◌&&◌, Option, none, some, List, [], ◌∷◌, ◌++◌, map, length,
  take, drop, head?, any, if◌then◌else◌, ◌==◌,
}
use tinydm.Prelude.Int.{ℤ, pos_part}
use tinydm.Sql.{
  Engine, Result, ok, err, driver, wrap, pure, on_error, statement, query, exec, ◌>>=◌, ◌>>◌,
}
use tinydm.Sql.Table.{select_all, update_all, any_row}
use tinydm.Schema.{ApiKey, ApiKeyRow, Tables, Store}
use tinydm.Auth.Users.{affected, list_limit, list_offset}

-- SELECT … WHERE p
abbrev pub keys_where : (ApiKey → Bool) → Tables → List ApiKey
keys_where p t = map (λ r. r.key) (select_all (λ r. p r.key) t.api_keys)

-- `GetAPIKeyByHash`
unfoldable pub get_api_key_by_hash : String → Store (Option ApiKey)
get_api_key_by_hash hash =
    on_error (wrap "get api key by hash")
      (query (λ _ t. head? (keys_where (λ k. k.key_hash == hash) t)))

-- `GetAPIKeyByID`
unfoldable get_api_key_by_id : String → Store (Option ApiKey)
get_api_key_by_id id =
    on_error (wrap "get api key by id") (query (λ _ t. head? (keys_where (λ k. k.id == id) t)))

abbrev pub new_api_key : String → Option String → String → String → String → Option ℕ → ApiKey
new_api_key id user_id name key_hash key_prefix expires_at = record {
  id = id;
  user_id = user_id;
  name = name;
  key_hash = key_hash;
  key_prefix = key_prefix;
  expires_at = expires_at;
  revoked_at = none;
}

abbrev pub unknown_user : Option String → Tables → Bool
unknown_user none t = false
unknown_user (some user_id) t = not (any_row (λ u. u.id == user_id) t.users)

-- The INSERT of `CreateAPIKey`: `id` is the primary key, `key_hash` is UNIQUE, and the user, if there
-- is one, is a row, deleted or not.
abbrev insert_api_key : ApiKey → Engine → String → Tables → Result (Unit {0}) × Tables
insert_api_key k engine now t =
    if any (λ r. r.key.id == k.id) t.api_keys
    then (err (driver (engine.unique_violation "api_keys.id")), t)
    else if any (λ r. r.key.key_hash == k.key_hash) t.api_keys
    then (err (driver (engine.unique_violation "api_keys.key_hash")), t)
    else if unknown_user k.user_id t
    then (err (driver (engine.foreign_key_violation "api_keys.user_id")), t)
    else (ok tt, record t { api_keys = t.api_keys ++ record { key = k; last_used_at = none } ∷ [] })

-- `CreateAPIKey`; the new identifier is the argument `id`.
unfoldable pub create_api_key :
    String → Option String → String → String → String → Option ℕ → Store (Option ApiKey)
unfolding get_api_key_by_hash
create_api_key id user_id name key_hash key_prefix expires_at = do
  on_error (wrap "create api key")
      (statement (insert_api_key (new_api_key id user_id name key_hash key_prefix expires_at)))
  get_api_key_by_hash key_hash

abbrev is_unrevoked : ApiKey → Bool
is_unrevoked k = elim k.revoked_at [ none ↦ true | some _ ↦ false ]

-- `ListAPIKeys`. The keys are ordered by the time of their creation, the newest first: that is the
-- order of the rows from the last to the first, where no two are made in one second.
unfoldable pub list_api_keys : ℤ → ℤ → Store (List ApiKey × ℕ)
list_api_keys limit offset = do
  total ← on_error (wrap "count api keys") (query (λ _ t. length (keys_where is_unrevoked t)))
  rows ← on_error (wrap "list api keys") (
      query (λ _ t.
        take (pos_part (list_limit limit))
          (drop (pos_part (list_offset offset)) (reverse (keys_where is_unrevoked t)))))
  pure (rows, total)

abbrev revocable : String → ApiKeyRow → Bool
revocable id r = r.key.id == id && is_unrevoked r.key

-- `RevokeAPIKey`
unfoldable pub revoke_api_key : String → Store (Unit {0})
revoke_api_key id = do
  n ← on_error (wrap "revoke api key") (
      statement (λ _ now t. (
        ok (length (select_all (revocable id) t.api_keys)),
        record t {
          api_keys =
              update_all (revocable id)
                (λ r. record r { key = record (r.key) { revoked_at = some now } }) t.api_keys;
        },
      )))
  affected "api key not found or already revoked" n

-- `TouchAPIKey`
unfoldable pub touch_api_key : String → Store (Unit {0})
touch_api_key id = exec (λ _ now t. record t {
  api_keys =
      update_all (λ r. r.key.id == id) (λ r. record r { last_used_at = some now }) t.api_keys;
})
