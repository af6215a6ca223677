-- ===== src/Api/Users/Laws.antt =====
-- A key that `CreateAPIKey` hands out is accepted.
use tinydm.Api.{ℕ, SafeKey, json, created_key}
use tinydm.Api.Users.{create_key, principal_id}
use tinydm.Auth.Token.{GeneratedKey, generate_api_key, hash_api_key}
use tinydm.Auth.Middleware.{verify_api_key, World}
use tinydm.Auth.Middleware.Keys.{principal_of, verify_api_key_lem}
use tinydm.Sql.{Result, err, ok, Conn}
use tinydm.Sql.Quiet.{kept_world, Result-cases, Quiet}
use tinydm.Prelude.{
  ◌∙◌, sym, ap, ◌+◌, eq_iff, refl, String, ◌≡◌, false, Option, none, some, List, [], ◌∷◌, ◌++◌, any,
  head?, map, arith, inl, inr, Bool-cases, ◌==◌,
}
use tinydm.Sql.Table.{select_all}
use tinydm.Schema.{ApiKey, ApiKeyRow, Tables}
use tinydm.Auth.ApiKeys.{new_api_key, unknown_user, create_api_key, get_api_key_by_hash}

-- The first key of the table with the hash.
abbrev key_of_hash : String → List ApiKeyRow → Option ApiKey
key_of_hash hash rows = head? (map (λ r. r.key) (select_all (λ r. r.key.key_hash == hash) rows))

key_of_hash-append :
    (hash : String) (rows : List ApiKeyRow) (k : ApiKey)
    → any (λ r. r.key.key_hash == hash) rows ≡ false
    → k.key_hash ≡ hash
    → key_of_hash hash (rows ++ record { key = k; last_used_at = none } ∷ []) ≡ some k
unfolding select_all
key_of_hash-append hash [] k fresh same = ground (arith, eq_iff k.key_hash hash)
key_of_hash-append hash (r ∷ rows) k fresh same = ground (arith, key_of_hash-append hash rows k)

module _ (id : String) (user_id : Option String) (name hash prefix : String) where
  abbrev fresh_key : ApiKey
  fresh_key = new_api_key id user_id name hash prefix none

  created_lem :
      (x : Option ApiKey) (c : Conn Tables)
      → Quiet c
      → (create_api_key id user_id name hash prefix none c).0 ≡ ok x
      → ((create_api_key id user_id name hash prefix none c).1.world ≡ c.world)
        × (((create_api_key id user_id name hash prefix none c).1.tables.users ≡ c.tables.users)
            × (key_of_hash hash
                  (create_api_key id user_id name hash prefix none c).1.tables.api_keys
                ≡ some fresh_key))
  unfolding create_api_key get_api_key_by_hash
  created_lem x c q h =
      let quiet = q c.tick in
      let quiet' = q (c.tick + 1) in
      elim (Bool-cases (any (λ r. r.key.id == id) c.tables.api_keys)) [
        | inl taken ↦ absurd (ground arith)
        | inr new ↦ elim (Bool-cases (any (λ r. r.key.key_hash == hash) c.tables.api_keys)) [
          | inl taken ↦ absurd (ground arith)
          | inr fresh ↦ elim (Bool-cases (unknown_user user_id c.tables)) [
            | inl unknown ↦ absurd (ground arith)
            | inr known ↦
                let last = key_of_hash-append hash c.tables.api_keys fresh_key fresh refl in
                (ground arith, (ground arith, ground arith))
          ]
        ]
      ]

module _ (w : World) where
  generated_hash :
      (read : Result (List ℕ)) (g : GeneratedKey)
      → generate_api_key w.sum256 read ≡ ok g
      → g.hash ≡ hash_api_key w.sum256 g.plaintext
  unfolding generate_api_key hash_api_key
  generated_hash (err e) g h = absurd (ground arith)
  generated_hash (ok bytes) g h = ground arith

  same_state :
      (read : Result (List ℕ)) (id name : String) (r : tinydm.Api.Request) (c : Conn Tables)
      (g : GeneratedKey)
      → (name == "") ≡ false
      → generate_api_key w.sum256 read ≡ ok g
      → (create_key w.sum256 read id (some name) r c).1
        ≡ (create_api_key id (some (principal_id r)) name g.hash g.prefix none c).1
  unfolding create_key
  same_state read id name r c g named made =
      elim (Result-cases
        (create_api_key id (some (principal_id r)) name g.hash g.prefix none c).0) [
          | inr (e, failed) ↦ ground arith
          | inl (k, stored) ↦ ground arith
        ]

  same_text :
      (read : Result (List ℕ)) (id name plaintext : String) (safe : SafeKey)
      (r : tinydm.Api.Request) (c : Conn Tables) (g : GeneratedKey) (k : ApiKey)
      → (name == "") ≡ false
      → generate_api_key w.sum256 read ≡ ok g
      → (create_api_key id (some (principal_id r)) name g.hash g.prefix none c).0 ≡ ok (some k)
      → (create_key w.sum256 read id (some name) r c).0 ≡ json 201 (created_key safe plaintext)
      → g.plaintext ≡ plaintext
  unfolding create_key
  same_text read id name plaintext safe r c g k named made stored h = ground arith

  -- The row of a key that the handler made.
  abbrev pub issued_key : String → String → String → SafeKey → String → ApiKey
  issued_key id user_id name safe plaintext =
      new_api_key id (some user_id) name (hash_api_key w.sum256 plaintext) safe.key_prefix none

  -- Where the driver does not fail, a key that `CreateAPIKey` hands out is accepted at once: its
  -- plaintext authenticates as the user who asked for it, if that is a live and active user, and
  -- otherwise as an administrator.
  pub verify_api_key-create_key :
      (read : Result (List ℕ)) (id name plaintext : String) (safe : SafeKey)
      (r : tinydm.Api.Request) (c : Conn Tables)
      → Quiet c
      → (create_key w.sum256 read id (some name) r c).0 ≡ json 201 (created_key safe plaintext)
      → (verify_api_key w plaintext (create_key w.sum256 read id (some name) r c).1).0
        ≡ ok (
            some (principal_of (issued_key id (principal_id r) name safe plaintext) c.tables.users))
  unfolding create_key
  verify_api_key-create_key read id name plaintext safe r c q h = elim (Bool-cases (name == "")) [
    | inl blank ↦ absurd (ground arith)
    | inr named ↦ elim (Result-cases (generate_api_key w.sum256 read)) [
      | inr (e, failed) ↦ absurd (ground arith)
      | inl (g, made) ↦
          elim (Result-cases
            (create_api_key id (some (principal_id r)) name g.hash g.prefix none c).0) [
              | inr (e, failed) ↦ absurd (ground arith)
              | inl (none, stored) ↦ absurd (ground arith)
              | inl (some k, stored) ↦
                  let fresh = fresh_key id (some (principal_id r)) name g.hash g.prefix in
                  let c' =
                    (create_api_key id (some (principal_id r)) name g.hash g.prefix none c).1 in
                  let state = same_state read id name r c g named made in
                  let text = same_text read id name plaintext safe r c g k named made stored h in
                  let (world, (users, key)) =
                    created_lem id (some (principal_id r)) name g.hash g.prefix (some k) c q
                      stored in
                  let found =
                    ap (λ hash. key_of_hash hash c'.tables.api_keys)
                      (sym (generated_hash read g made))
                    ∙ key in
                  let base =
                    verify_api_key_lem w g.plaintext fresh c' (kept_world c c' q world) found
                      (refl, inl refl) in
                  ap (λ x. (verify_api_key w plaintext x).0) state
                  ∙ (ap (λ t. (verify_api_key w t c').0) (sym text)
                      ∙ (base ∙ ap (λ us. ok (some (principal_of fresh us))) users))
            ]
    ]
  ]
