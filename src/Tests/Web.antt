-- ===== src/Tests/Web.antt =====
-- Sessions, shared content and administrators in the browser.
use tinydm.Prelude.Int.{wrap64}
use tinydm.Prelude.{
  ◌-◌, ◌+◌, ◌<◌, ◌*◌, ◌^◌, ◌≤◌, eq_iff, String, ◌≡◌, ◌⊎◌, refl, none, some, List, [], ◌∷◌, arith,
  ◌==◌, if◌then◌else◌,
}
use tinydm.Web.Pages.{new_web_pagination, page_offset}
use tinydm.Web.Pages.Laws.{new_web_pagination_bounds}
use tinydm.Prelude.Int.{pos, ◌+ℤ◌}
use tinydm.Auth.Token.{lifetime}
use tinydm.Sql.{Conn}
use tinydm.Sql.Quiet.{ticked}
use tinydm.Sql.Table.{select}
use tinydm.Sql.Table.Find.{find}
use tinydm.Schema.{UserRow, Document, Tables}
use tinydm.Storage.{Files}
use tinydm.Auth.Users.{to_user, get_user_by_username}
use tinydm.Auth.Token.{new_jwt, claims_of}
use tinydm.Api.{error_body}
use tinydm.Api.Documents.{download}
use tinydm.Web.{WebRequest, WebReply, header, Site}
use tinydm.Web.Sessions.{require_session, login_submit, logout, session_principal}
use tinydm.Web.Sessions.Laws.{
  SentToLogin, LetThrough, require_session_lem, require_session-login_submit,
}
use tinydm.Web.Documents.{delete_document}
use tinydm.Web.Documents.Laws.{delete_document_loses}
use tinydm.Web.Users.Laws.{UserPage, activate_page, deactivate_page, delete_page, create_page}
use tinydm.Tests.Users.{w, jwt-Documented, users_conn}
use tinydm.Tests.Handlers.{inside}
use tinydm.Tests.{conn, document}

abbrev text_of : List (String × String) → String → String
text_of [] key = ""
text_of ((k, v) ∷ pairs) key = if k == key then v else text_of pairs key

abbrev visit : WebRequest
visit = record {
  cookie = some "e30.sig";
  form_value = text_of (("username", "ann") ∷ ("password", "pw") ∷ []);
  query = λ key. "";
  url_param = text_of (("userID", "root") ∷ ("documentID", "d") ∷ []);
  principal = record { id = ""; username = ""; user_type = ""; auth_method = "" };
}

abbrev no_files : Files
no_files key = none

require_session_example :
    SentToLogin no_files users_conn (require_session w "s3cret" logout visit (no_files, users_conn))
    ⊎ ((u : UserRow) × LetThrough w "s3cret" logout visit no_files users_conn u
          (require_session w "s3cret" logout visit (no_files, users_conn)))
require_session_example = require_session_lem w "s3cret" logout visit no_files users_conn

require_session-login_submit_example :
    (u : UserRow) × ((find (λ u. u.username) "ann" users_conn.tables.users ≡ some u)
      × ((v : UserRow)
          → find (λ u. u.id) u.id users_conn.tables.users ≡ some v
          → v.is_active ≡ 1
          → require_session w "s3cret" logout visit (no_files, users_conn)
            ≡ logout
                (record visit { principal = session_principal (to_user v) })
                (no_files, ticked users_conn)))
unfolding login_submit select get_user_by_username new_jwt claims_of ◌+ℤ◌ lifetime wrap64
require_session-login_submit_example =
    require_session-login_submit (record w { time_now = 10 }) w "s3cret" (pos 5) jwt-Documented
      logout visit visit no_files no_files users_conn users_conn "e30.sig" (pos 300) refl refl refl
      refl refl refl

-- Another document with the content of the first
abbrev twin : Document
twin = record (document "d" "a.txt") { id = "e"; name = "b.txt" }

abbrev twins : Conn Tables
twins = record conn {
  tables = record (conn.tables) {
    documents =
        record { value = document "d" "a.txt"; deleted_at = none }
        ∷ record { value = twin; deleted_at = none }
        ∷ [];
  };
}

abbrev after : WebReply × Site
after = delete_document none visit ((λ key. some (9 ∷ [])), twins)

delete_document_loses_example :
    (after.0 ≡ header 200)
    × ((find (λ d. d.id) "d" after.1.1.tables.documents ≡ none)
        × ((find (λ d. d.id) "e" after.1.1.tables.documents ≡ some twin)
            × (download none after.1.0 (record inside { document = some twin }) conn
                ≡ (error_body 404 "content not found", conn))))
unfolding select
delete_document_loses_example =
    delete_document_loses visit (document "d" "a.txt") twin (λ key. some (9 ∷ [])) twins inside conn
      (λ n. refl) refl refl (λ e. absurd (ground (arith, (eq_iff "e" "d").1 e))) refl

abbrev visits : List (UserPage × WebRequest)
visits =
    (create_page "u9", visit)
    ∷ (deactivate_page, visit)
    ∷ (activate_page, visit)
    ∷ (delete_page, visit)
    ∷ []

new_web_pagination_bounds_example :
    ((1 ≤ (new_web_pagination 101 7 50 "").page)
      × ((new_web_pagination 101 7 50 "").page ≤ (new_web_pagination 101 7 50 "").total_pages))
    × ((101 ≤ (new_web_pagination 101 7 50 "").total_pages * (new_web_pagination 101 7 50 "").limit)
        × (0 < 101
            → ((new_web_pagination 101 7 50 "").total_pages - 1)
                * (new_web_pagination 101 7 50 "").limit
              < 101))
new_web_pagination_bounds_example = new_web_pagination_bounds 101 7 50 ""

-- The first page of 50 rows starts at 0; page 2 ^ 60 + 1 of 16 rows does so too.
offset_wraps : (page_offset 1 50 ≡ pos 0) × (page_offset (2 ^ 60 + 1) 16 ≡ pos 0)
unfolding page_offset
offset_wraps = (refl, refl)
