-- ===== src/Auth/Middleware/Bearer.antt =====
-- Tokens of internal/auth/token.go as `identify` of internal/auth/middleware.go reads them.
use tinydm.Prelude.{ℕ, String, ◌≡◌, true, arith, some, refl}
use tinydm.Prelude.Int.{ℤ, pos, ltb_ℤ, ◌+ℤ◌}
use Prim.Native.String.{◌++◌}
use text.Mathlib.TextPositions.{starts_with-append}
use tinydm.Prelude.Texts.{trim_prefix-append}
use tinydm.Schema.{Tables}
use tinydm.Sql.{ok, Conn}
use tinydm.Auth.{UserType, auth_method_bearer}
use tinydm.Auth.Middleware.{World, Request, verify_jwt, identify}
use tinydm.Auth.Token.{lifetime, Jwt, Documented, claims_of, new_jwt, key_for, parse_jwt}

module _ (jwt : Jwt) (d : Documented jwt) where
  -- A token that `NewJWT` made parses with the same secret, until it expires, to its claims.
  pub parse_jwt-new_jwt :
      (issued now : ℕ) (secret token : String) (minutes : ℤ) (user_id username : String)
      (user_type : UserType)
      → new_jwt jwt issued secret minutes user_id username user_type ≡ ok token
      → ltb_ℤ (pos now) (pos issued +ℤ lifetime minutes) ≡ true
      → parse_jwt jwt now secret token
        ≡ ok (claims_of jwt issued minutes user_id username user_type)
  unfolding parse_jwt new_jwt claims_of
  parse_jwt-new_jwt issued now secret token minutes user_id username user_type made early =
      let claims = claims_of jwt issued minutes user_id username user_type in
      let hmac = d.hs256-IsHmac in
      let parsed = d.parse-sign secret token claims now (key_for jwt secret) in ground arith

module _ (w : World) (d : Documented w.jwt) where
  -- A request with the header `Authorization: Bearer <token>`, the token made by `NewJWT` with the same
  -- secret and not expired, is made by the principal of the token; no table is read, so that this is
  -- so whatever has become of the user since.
  pub identify-new_jwt :
      (issued : ℕ) (secret token : String) (minutes : ℤ) (user_id username : String)
      (user_type : UserType) (r : Request) (c : Conn Tables)
      → new_jwt w.jwt issued secret minutes user_id username user_type ≡ ok token
      → ltb_ℤ (pos w.time_now) (pos issued +ℤ lifetime minutes) ≡ true
      → r.header "Authorization" ≡ "Bearer " ++ token
      → identify w r secret c ≡ (
        ok (
            some (record {
              id = user_id;
              username = username;
              user_type = user_type;
              auth_method = auth_method_bearer;
            })),
        c,
      )
  unfolding identify verify_jwt claims_of
  identify-new_jwt issued secret token minutes user_id username user_type r c made early header =
      let parsed =
        parse_jwt-new_jwt w.jwt d issued w.time_now secret token minutes user_id username user_type
          made early in
      rw (header, starts_with-append "Bearer " token, trim_prefix-append "Bearer " token)
        (rw (verify_jwt, parsed) refl)
