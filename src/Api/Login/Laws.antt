-- ===== src/Api/Login/Laws.antt =====
-- What a login proves, and what its token is good for.
use tinydm.Prelude.{
  ap, String, ◌≡◌, ◌∙◌, true, ◌||◌, some, arith, inl, inr, Option-cases, Bool-cases, ◌==◌,
}
use Prim.Native.String.{◌++◌}
use tinydm.Prelude.Int.{ℤ, pos, ltb_ℤ, ◌+ℤ◌}
use tinydm.Sql.{ok, Conn}
use tinydm.Sql.Quiet.{Result-cases}
use tinydm.Sql.Table.Find.{find}
use tinydm.Schema.{UserRow, Tables}
use tinydm.Auth.{auth_method_bearer}
use tinydm.Auth.Users.{User, to_user, get_user_by_username}
use tinydm.Auth.Token.{lifetime, Documented, new_jwt}
use tinydm.Auth.Middleware.{World, Request, identify}
use tinydm.Auth.Middleware.Bearer.{identify-new_jwt}
use tinydm.Api.{Reply, json, login_response}
use tinydm.Api.Login.{login, credentials}

module _ (w : World) (secret : String) (minutes : ℤ) where
  credentials_sound :
      (password token id username user_type : String) (u : User)
      → credentials w secret minutes password (some u)
        ≡ json 200 (login_response token id username user_type)
      → (u.is_active ≡ true)
        × ((w.compare_hash_and_password u.password_hash password ≡ true)
            × ((new_jwt w.jwt w.time_now secret minutes u.id u.username u.user_type ≡ ok token)
                × ((u.id ≡ id) × ((u.username ≡ username) × (u.user_type ≡ user_type)))))
  credentials_sound password token id username user_type u h =
      elim (Result-cases (new_jwt w.jwt w.time_now secret minutes u.id u.username u.user_type)) [
        | inr (e, failed) ↦ absurd (ground arith)
        | inl (t, made) ↦ (
          ground arith,
          (ground arith, (ground arith, (ground arith, (ground arith, ground arith)))),
        )
      ]

  is_active_one : (u : UserRow) → (to_user u).is_active ≡ true → u.is_active ≡ 1
  is_active_one u h = ground arith

  -- A login that answers with a token is that of a live and active user with the name, whose stored
  -- hash the password meets; the answer names the user, and the token is the user's.
  pub login_sound :
      (name password token id username user_type : String) (r : tinydm.Api.Request)
      (c : Conn Tables)
      → (login w secret minutes (some (name, password)) r c).0
        ≡ json 200 (login_response token id username user_type)
      → (u : UserRow) × ((find (λ u. u.username) name c.tables.users ≡ some u)
          × ((u.is_active ≡ 1)
              × ((w.compare_hash_and_password u.password_hash password ≡ true)
                  × ((new_jwt w.jwt w.time_now secret minutes u.id u.username u.user_type
                        ≡ ok token)
                      × ((u.id ≡ id) × ((u.username ≡ username) × (u.user_type ≡ user_type)))))))
  unfolding login get_user_by_username
  login_sound name password token id username user_type r c h =
      elim (Bool-cases (name == "" || password == "")) [
        | inl blank ↦ absurd (ground arith)
        | inr given ↦ elim (Option-cases (c.world c.tick).fault) [
          | inr failed ↦ absurd (ground arith)
          | inl quiet ↦ elim (Option-cases (find (λ u. u.username) name c.tables.users)) [
            | inl absent ↦ absurd (ground arith)
            | inr (u, found) ↦
                let (active, (met, (made, same))) =
                  credentials_sound password token id username user_type (to_user u)
                    (ground arith) in
                (u, (found, (is_active_one u active, (met, (made, same)))))
          ]
        ]
      ]

-- The token of a login identifies the user in later requests with the same secret until it expires,
-- by the identifier, the name and the type that a live row held at the login; no table is read.
pub identify-login :
    (w w' : World) (secret : String) (minutes : ℤ) (d : Documented w'.jwt)
    (name password token id username user_type : String) (r : tinydm.Api.Request) (r' : Request)
    (c c' : Conn Tables)
    → w'.jwt ≡ w.jwt
    → (login w secret minutes (some (name, password)) r c).0
      ≡ json 200 (login_response token id username user_type)
    → ltb_ℤ (pos w'.time_now) (pos w.time_now +ℤ lifetime minutes) ≡ true
    → r'.header "Authorization" ≡ "Bearer " ++ token
    → (u : UserRow) × ((find (λ u. u.username) name c.tables.users ≡ some u)
        × (identify w' r' secret c' ≡ (
          ok (
              some (record {
                id = u.id;
                username = u.username;
                user_type = u.user_type;
                auth_method = auth_method_bearer;
              })),
          c',
        )))
identify-login w w' secret minutes d name password token id username user_type r r' c c' same h
      early header =
    let (u, (found, (active, (met, (made, names))))) =
      login_sound w secret minutes name password token id username user_type r c h in
    (
      u,
      (
        found,
        identify-new_jwt w' d w.time_now secret token minutes u.id u.username u.user_type r' c'
            (ap (λ j. new_jwt j w.time_now secret minutes u.id u.username u.user_type) same ∙ made)
            early header,
      ),
    )
