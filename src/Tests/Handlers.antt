-- ===== src/Tests/Handlers.antt =====
-- The handlers of the API.
use tinydm.Prelude.Int.{wrap64}
use tinydm.Api.{
  one_document, Request, json, error_body, internal_error, tags, properties, buckets,
  login_response, created_key, page_params, SafeKey,
}
use tinydm.Tests.{version, conn, bucket, document}
use tinydm.Sql.Table.{select_all, select}
use tinydm.Prelude.{String, ◌≡◌, refl, ◌&&◌, not, some, List, [], ◌∷◌, any, if◌then◌else◌, ◌==◌}
use tinydm.Prelude.Int.{pos, ◌+ℤ◌}
use tinydm.Auth.Token.{lifetime}
use tinydm.Sql.{Result, ok}
use tinydm.Sql.Table.Find.{find}
use tinydm.Schema.{Project, UserRow}
use tinydm.Auth.{auth_method_bearer}
use tinydm.Auth.Users.{get_user_by_username}
use tinydm.Auth.ApiKeys.{create_api_key, get_api_key_by_hash}
use tinydm.Auth.Token.{generate_api_key, encode_to_string, claims_of, new_jwt}
use tinydm.Auth.Middleware.{identify, verify_api_key}
use tinydm.Auth.Middleware.Keys.{principal_of}
use tinydm.Repo.Tags.Laws.{has_tag}
use tinydm.Repo.Properties.Table.{value_of}
use tinydm.Api.Login.{login}
use tinydm.Api.Login.Laws.{identify-login}
use tinydm.Api.Users.{create_key}
use tinydm.Api.Users.Laws.{issued_key, verify_api_key-create_key}
use tinydm.Api.Tags.{replace}
use tinydm.Prelude.Texts.{trim_space}
use tinydm.Api.Tags.Laws.{replace_lem}
use tinydm.Api.Properties.Laws.{replaced_value, replace_properties_lem}
use tinydm.Tests.Api.{request, ann}
use tinydm.Tests.Users.{w, jwt-Documented, users_conn, user}

abbrev pub inside : Request
inside = record (request (ann "bearer")) {
  project =
      some (record { id = "p"; name = "x"; description = ""; created_at = ""; updated_at = "" });
  bucket = some bucket;
  document = some (document "d" "a.txt");
}

abbrev pub lock : String → Result (Unit {0})
lock key = ok tt

abbrev texts : List String
texts = " x " ∷ "  " ∷ []

replace_example :
    ((found : List String) × ((replace lock (some texts) inside conn).0 ≡ json 200 (tags found)))
    × (has_tag "d" "x" (replace lock (some texts) inside conn).1.tables ≡ (
        if "d" == "d"
        then not ("x" == "") && any (λ t. "x" == trim_space t) texts
        else has_tag "d" "x" conn.tables))
replace_example =
    replace_lem lock texts inside (document "d" "a.txt") conn "d" "x" (λ n. refl) refl refl refl

abbrev body : List (String × String)
body = ("sys.size", "9") ∷ ("colour", "blue") ∷ []

replace_properties_example :
    ((found : List (String × String)) × ((tinydm.Api.Properties.replace lock
          (some body)
          inside
          conn).0
        ≡ json 200 (properties found)))
    × (value_of "d" "sys.size" (tinydm.Api.Properties.replace lock (some body) inside conn).1.tables
        ≡ replaced_value conn "d" "sys.size" body)
replace_properties_example =
    replace_properties_lem lock body inside (document "d" "a.txt") conn "sys.size" (λ n. refl) refl
      refl refl

abbrev project : Project
project = record { id = "p"; name = "x"; description = ""; created_at = ""; updated_at = "" }

identify-login_example :
    (u : UserRow) × ((find (λ u. u.username) "ann" users_conn.tables.users ≡ some u)
      × (identify w tinydm.Tests.Users.request "s3cret" users_conn ≡ (
        ok (
            some (record {
              id = u.id;
              username = u.username;
              user_type = u.user_type;
              auth_method = auth_method_bearer;
            })),
        users_conn,
      )))
unfolding login select get_user_by_username new_jwt claims_of ◌+ℤ◌ lifetime wrap64
identify-login_example =
    identify-login (record w { time_now = 10 }) w "s3cret" (pos 5) jwt-Documented "ann" "pw"
      "e30.sig" "ann" "ann" "user" inside tinydm.Tests.Users.request users_conn users_conn refl refl
      refl refl

abbrev safe : SafeKey
safe = record { id = "k2"; name = "ci"; key_prefix = "tdm_0a" }

verify_api_key-create_key_example :
    (verify_api_key w "tdm_0a"
      (create_key w.sum256 (ok (10 ∷ [])) "k2" (some "ci") inside users_conn).1).0
    ≡ ok (some (principal_of (issued_key w "k2" "ann" "ci" safe "tdm_0a") users_conn.tables.users))
unfolding create_key generate_api_key encode_to_string create_api_key get_api_key_by_hash select_all
verify_api_key-create_key_example =
    verify_api_key-create_key w (ok (10 ∷ [])) "k2" "ci" "tdm_0a" safe inside users_conn (λ n. refl)
      refl

abbrev restoring : Request
restoring = record inside { version = some version }
