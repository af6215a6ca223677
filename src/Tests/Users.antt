-- ===== src/Tests/Users.antt =====
-- Users, passwords, tokens and keys.
use tinydm.Auth.Token.{encode_to_string, hash_api_key, Claims, Token, Jwt, Documented}
use tinydm.Auth.Users.{get_user_by_username, to_user, delete_user}
use tinydm.Prelude.{
  eq_iff, subst, Bool-cases, arith, eqb, ◌&&◌, ℕ, String, ◌≡◌, refl, Bool, true, false, none, some,
  List, [], ◌∷◌, inl, inr, ltb, ◌==◌, if◌then◌else◌,
}
use Prim.Native.String.{len}
use tinydm.Prelude.Int.{ℤ, pos, negsuc, ltb_ℤ}
use tinydm.Prelude.Texts.{cut}
use tinydm.Sql.{Result, ok, err, plain, Conn}
use tinydm.Sql.Table.Find.{find}
use tinydm.Sql.Table.{select, select_all}
use tinydm.Schema.{UserRow, ApiKey, Tables}
use tinydm.Auth.{Principal, auth_method_basic}
use tinydm.Auth.Users.Safety.{
  ActiveAdmin, UserOp, create, delete, set_active, after_all, after_all-ActiveAdmin,
}
use tinydm.Auth.Middleware.{
  World, Request, user_principal, key_principal, verify_basic, verify_api_key,
}
use tinydm.Auth.Middleware.Keys.{verify_api_key-delete_user}
use tinydm.Auth.Middleware.Basic.{verify_basic_sound}
use tinydm.Tests.{conn}

abbrev pub user : String → String → UserRow
user id user_type = record {
  id = id;
  username = id;
  email = "";
  first_name = "";
  last_name = "";
  password_hash = "secret";
  user_type = user_type;
  is_active = 1;
}

abbrev key : ApiKey
key = record {
  id = "k";
  user_id = some "ann";
  name = "scripts";
  key_hash = "05";
  key_prefix = "tdm_0a0b0c0d";
  expires_at = some 50;
  revoked_at = none;
}

abbrev pub users_conn : Conn Tables
users_conn = record conn {
  tables = record (conn.tables) {
    users =
        record { value = user "root" "admin"; deleted_at = none }
        ∷ record { value = user "ann" "user"; deleted_at = none }
        ∷ [];
    api_keys = record { key = key; last_used_at = none } ∷ [];
  };
}

abbrev claims : Claims
claims = record {
  username = "ann";
  user_type = "user";
  subject = "ann";
  issued_at = pos 10;
  expires_at = pos 310;
}

abbrev is_int : ℕ → ℤ → Bool
is_int n (pos m) = eqb n m
is_int n (negsuc m) = false

abbrev same_claims : Claims → Bool
same_claims c =
    c.username == "ann"
    && (c.user_type == "user"
        && (c.subject == "ann" && (is_int 10 c.issued_at && is_int 310 c.expires_at)))

abbrev answer : ℕ → Result String → Result Token
answer now (err e) = err e
answer now (ok key) =
    if key == "s3cret" && ltb now 310
    then ok (record { claims = claims; valid = true })
    else err (plain "token is expired")

-- A library that signs `claims` with one key, and no others.
abbrev jwt : Jwt
jwt = record {
  is_hmac = λ alg. alg == "HS256";
  signed_string =
      λ key c. if key == "s3cret" && same_claims c then ok "e30.sig" else err (plain "not signed");
  parse_with_claims = λ now token key_of.
      if token == "e30.sig" then answer now (key_of "HS256") else err (plain "malformed");
}

is_int_eq : (n : ℕ) (z : ℤ) → is_int n z ≡ true → z ≡ pos n
is_int_eq n (pos m) h = ground arith
is_int_eq n (negsuc m) h = ground arith

same_claims_iff : (c : Claims) → same_claims c ≡ true → c ≡ claims
same_claims_iff c h = ground (
  arith,
  eq_iff c.username "ann",
  eq_iff c.user_type "user",
  eq_iff c.subject "ann",
  is_int_eq 10 c.issued_at,
  is_int_eq 310 c.expires_at,
)

parse_lem :
    (key token : String) (c : Claims) (now : ℕ) (key_of : String → Result String)
    → jwt.signed_string key c ≡ ok token
    → key_of "HS256" ≡ ok key
    → ltb_ℤ (pos now) c.expires_at ≡ true
    → jwt.parse_with_claims now token key_of ≡ ok (record { claims = c; valid = true })
parse_lem key token c now key_of signed key_ok early = elim (Bool-cases (same_claims c)) [
  | inr other ↦ absurd (ground arith)
  | inl same ↦
      let is_claims = same_claims_iff c same in
      let in_time = subst (λ x. ltb_ℤ (pos now) x.expires_at ≡ true) is_claims early in
      let answered =
        elim (Bool-cases (key == "s3cret"))
          as (λ _. answer now (ok key) ≡ ok (record { claims = claims; valid = true })) [
            | inr other ↦ absurd (ground arith)
            | inl ours ↦ ground arith
          ] in
      ground (arith, eq_iff token "e30.sig")
]

pub jwt-Documented : Documented jwt
jwt-Documented = record {
  hs256-IsHmac = refl;
  parse-sign = λ key token c now key_of signed key_ok early.
      parse_lem key token c now key_of signed key_ok early;
}

abbrev pub w : World
w = record {
  jwt = jwt;
  decode_string = λ s. ok "ann:pw";
  compare_hash_and_password = λ hash password. hash == "secret" && password == "pw";
  sum256 = λ s. len s ∷ [];
  time_now = 40;
}

ops : List UserOp
ops = delete "root" ∷ create "bob" "bob" "" "" "" "h" "user" ∷ set_active "root" false ∷ []

after_all_example : ActiveAdmin "root" (after_all ops users_conn).tables
unfolding select
after_all_example =
    after_all-ActiveAdmin "root" ops users_conn (user "root" "admin", refl, refl, refl)

verify_api_key-delete_user_example :
    (verify_api_key w "tdm_k" (delete_user "ann" users_conn).1).0 ≡ ok (some (key_principal key))
unfolding hash_api_key encode_to_string select select_all
verify_api_key-delete_user_example =
    verify_api_key-delete_user w "ann" "tdm_k" (user "ann" "user") key users_conn (λ n. refl) refl
      refl refl refl (refl, inr (50, (refl, refl)))

ann : Principal
ann = user_principal auth_method_basic (to_user (user "ann" "user"))

verify_basic_example :
    (text : String) × ((parts : String × String) × ((u : UserRow) × ((w.decode_string "YW5uOnB3"
            ≡ ok text)
          × ((cut text ":" ≡ some parts)
              × ((find (λ u. u.username) parts.0 users_conn.tables.users ≡ some u)
                  × ((u.is_active ≡ 1)
                      × ((w.compare_hash_and_password u.password_hash parts.1 ≡ true)
                          × (ann ≡ user_principal auth_method_basic (to_user u)))))))))
unfolding verify_basic cut select get_user_by_username ann
verify_basic_example = verify_basic_sound w "YW5uOnB3" ann users_conn refl

abbrev pub request : Request
request = record {
  header = λ name. if name == "Authorization" then "Bearer e30.sig" else "";
  principal = none;
}
