-- ===== src/Auth/Middleware/Basic.antt =====
-- `verifyBasic` of internal/auth/middleware.go: a password opens the door to active users alone.
use tinydm.Prelude.{String, ◌≡◌, true, some, arith, Option-cases, inl, inr}
use tinydm.Prelude.Texts.{cut}
use tinydm.Sql.Quiet.{Result-cases}
use tinydm.Sql.{ok, Conn}
use tinydm.Sql.Table.Find.{find}
use tinydm.Schema.{Tables, UserRow}
use tinydm.Auth.{Principal, auth_method_basic}
use tinydm.Auth.Users.{to_user, get_user_by_username}
use tinydm.Auth.Middleware.{World, user_principal, verify_basic}

module _ (w : World) where
  -- A principal that Basic authentication gives is that of a user in the table, live and active, whose
  -- stored hash the password meets.
  pub verify_basic_sound :
      (encoded : String) (p : Principal) (c : Conn Tables)
      → (verify_basic w encoded c).0 ≡ ok (some p)
      → (text : String) × ((parts : String × String) × ((u : UserRow) × ((w.decode_string encoded
                ≡ ok text)
              × ((cut text ":" ≡ some parts)
                  × ((find (λ u. u.username) parts.0 c.tables.users ≡ some u)
                      × ((u.is_active ≡ 1)
                          × ((w.compare_hash_and_password u.password_hash parts.1 ≡ true)
                              × (p ≡ user_principal auth_method_basic (to_user u)))))))))
  unfolding verify_basic get_user_by_username
  verify_basic_sound encoded p c h = elim (Result-cases (w.decode_string encoded)) [
    | inr (e, bad) ↦ absurd (ground arith)
    | inl (text, decoded) ↦ elim (Option-cases (cut text ":")) [
      | inl whole ↦ absurd (ground arith)
      | inr (parts, split) ↦ elim (Option-cases (c.world c.tick).fault) [
        | inr failed ↦ absurd (ground arith)
        | inl quiet ↦ elim (Option-cases (find (λ u. u.username) parts.0 c.tables.users)) [
          | inl absent ↦ absurd (ground arith)
          | inr (u, found) ↦ (
            text,
            (parts, (u, (decoded, (split, (found, (ground arith, (ground arith, ground arith))))))),
          )
        ]
      ]
    ]
  ]
