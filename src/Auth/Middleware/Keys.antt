-- ===== src/Auth/Middleware/Keys.antt =====
-- `verifyAPIKey` of internal/auth/middleware.go: whom a key stands for, and what deleting its user does.
use tinydm.Sql.Quiet.{kept_world, ticked, Quiet}
use tinydm.Auth.Users.{is_admin_user, delete_user, User, scan_user, get_user_by_id}
use tinydm.Prelude.{
  ◌+◌, ap, ◌∙◌, refl, ℕ, String, ◌≡◌, ◌⊎◌, inl, inr, false, Option, none, some, List, head?, ltb,
  arith, if◌then◌else◌, Bool-cases, Option-cases, ◌==◌,
}
use tinydm.Sql.Table.Find.{find-mark_live_self, find}
use tinydm.Auth.{user_type_user, Principal, auth_method_api_key}
use tinydm.Sql.Table.{mark_live_deleted, Row}
use tinydm.Sql.{ok, Conn}
use tinydm.Schema.{ApiKey, Tables, UserRow}
use tinydm.Auth.ApiKeys.{keys_where, get_api_key_by_hash, touch_api_key}
use tinydm.Auth.Token.{hash_api_key}
use tinydm.Auth.Middleware.{
  World, user_principal, key_principal, usable_key, owner_or_key, key_owner, verify_api_key,
}

-- The key is not revoked, and not past its time.
abbrev Usable : ApiKey → ℕ → Type 0
Usable k now =
    (k.revoked_at ≡ none)
    × ((k.expires_at ≡ none) ⊎ ((e : ℕ) × ((k.expires_at ≡ some e) × (ltb e now ≡ false))))

-- The user of the key, where it has one that is live and active.
abbrev active_owner : ApiKey → List (Row UserRow) → Option User
active_owner k users = elim k.user_id [
  | none ↦ none
  | some user_id ↦ elim (scan_user (find (λ u. u.id) user_id users)) [
    | none ↦ none
    | some u ↦ if u.is_active then some u else none
  ]
]

abbrev pub principal_of : ApiKey → List (Row UserRow) → Principal
principal_of k users = elim (active_owner k users) [
  | some u ↦ user_principal auth_method_api_key u
  | none ↦ key_principal k
]

module _ (w : World) where
  usable_key_lem :
      (k : ApiKey) (c : Conn Tables) → Usable k w.time_now → usable_key w (some k) c ≡ (ok k, c)
  unfolding usable_key
  usable_key_lem k c (live, inl e) = ground arith
  usable_key_lem k c (live, inr (t, (e, late))) = ground arith

  key_owner_lem :
      (k : ApiKey) (c : Conn Tables)
      → Quiet c
      → (key_owner w k c).0 ≡ ok (some (principal_of k c.tables.users))
  unfolding key_owner owner_or_key get_user_by_id
  key_owner_lem k c q = elim (Option-cases k.user_id) [
    | inl e ↦ ground arith
    | inr (user_id, e) ↦ elim (Option-cases (scan_user (find (λ u. u.id) user_id c.tables.users))) [
      | inl absent ↦ ground (arith, q c.tick)
      | inr (u, found) ↦ elim (Bool-cases u.is_active) [
        | inl active ↦ ground (arith, q c.tick)
        | inr idle ↦ ground (arith, q c.tick)
      ]
    ]
  ]

  looked_up :
      (hash : String) (k : ApiKey) (c : Conn Tables)
      → Quiet c
      → head? (keys_where (λ r. r.key_hash == hash) c.tables) ≡ some k
      → get_api_key_by_hash hash c ≡ (ok (some k), ticked c)
  unfolding get_api_key_by_hash
  looked_up hash k c q found = ground (arith, q c.tick)

  touched :
      (id : String) (c : Conn Tables)
      → Quiet c
      → ((touch_api_key id c).1.tables.users ≡ c.tables.users) × Quiet (touch_api_key id c).1
  unfolding touch_api_key
  touched id c q =
      (ground (arith, q c.tick), kept_world c (touch_api_key id c).1 q (ground (arith, q c.tick)))

  -- On a connection that does not fail, a key that is stored, not revoked and not expired
  -- authenticates: as its user, where that user is live and active, and otherwise as an
  -- administrator, also where it belongs to a user.
  pub verify_api_key_lem :
      (key : String) (k : ApiKey) (c : Conn Tables)
      → Quiet c
      → head? (keys_where (λ r. r.key_hash == hash_api_key w.sum256 key) c.tables) ≡ some k
      → Usable k w.time_now
      → (verify_api_key w key c).0 ≡ ok (some (principal_of k c.tables.users))
  unfolding verify_api_key
  verify_api_key_lem key k c q found usable =
      let (users, q') = touched k.id (ticked c) q in
      rw (looked_up (hash_api_key w.sum256 key) k c q found, usable_key_lem k (ticked c) usable)
        (key_owner_lem k (touch_api_key k.id (ticked c)).1 q'
          ∙ ap (λ us. ok (some (principal_of k us))) users)

  plain_user :
      (o : Option UserRow) (u : UserRow)
      → o ≡ some u
      → u.user_type ≡ user_type_user
      → is_admin_user (scan_user o) ≡ false
  plain_user o u found user = rw (found, user) refl

  deleted :
      (id : String) (u : UserRow) (c : Conn Tables)
      → Quiet c
      → find (λ u. u.id) id c.tables.users ≡ some u
      → u.user_type ≡ user_type_user
      → ((delete_user id c).1.world ≡ c.world)
        × ((delete_user id c).1.tables ≡ record c.tables {
          users = mark_live_deleted (λ u. u.id == id) (c.world (c.tick + 1)).now c.tables.users;
        })
  unfolding delete_user get_user_by_id
  deleted id u c q found user = (
    ground (arith, q c.tick, q (c.tick + 1)),
    let free = plain_user (find (λ u. u.id) id c.tables.users) u found user in
        ground (arith, q c.tick, q (c.tick + 1)),
  )

  ownerless :
      (k : ApiKey) (id now : String) (users : List (Row UserRow))
      → k.user_id ≡ some id
      → principal_of k (mark_live_deleted (λ u. u.id == id) now users) ≡ key_principal k
  ownerless k id now users owned =
      let gone = find-mark_live_self (λ u. u.id) id now users in ground arith

  -- When a user who is no administrator is deleted, a key of theirs that is still usable
  -- authenticates as an administrator, on a connection that does not fail.
  pub verify_api_key-delete_user :
      (id key : String) (u : UserRow) (k : ApiKey) (c : Conn Tables)
      → Quiet c
      → find (λ u. u.id) id c.tables.users ≡ some u
      → u.user_type ≡ user_type_user
      → head? (keys_where (λ r. r.key_hash == hash_api_key w.sum256 key) c.tables) ≡ some k
      → k.user_id ≡ some id
      → Usable k w.time_now
      → (verify_api_key w key (delete_user id c).1).0 ≡ ok (some (key_principal k))
  verify_api_key-delete_user id key u k c q live user found owned usable =
      let (world, tables) = deleted id u c q live user in
      verify_api_key_lem key k (delete_user id c).1 (kept_world c (delete_user id c).1 q world)
        (ap (λ t. head? (keys_where (λ r. r.key_hash == hash_api_key w.sum256 key) t)) tables
          ∙ found)
        usable
      ∙ ap (λ t. ok (some (principal_of k t.users))) tables
      ∙ ap (λ p. ok (some p)) (ownerless k id (c.world (c.tick + 1)).now c.tables.users owned)
