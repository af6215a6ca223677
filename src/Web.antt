-- ===== src/Web.antt =====
-- internal/web: the pages for a browser. A handler's reply is what it sends, the page as the data that
-- its template is given; templates are not modelled.
pub mod Sessions
pub mod Pages
pub mod Documents
pub mod Users
use tinydm.Prelude.{ℕ, String, Option, List}
use tinydm.Prelude.Int.{ℤ}
use tinydm.Schema.{Project, Bucket, Document, Tables}
use tinydm.Sql.{Conn}
use tinydm.Auth.{Principal}
use tinydm.Auth.Users.{User}
use tinydm.Storage.{Files}

-- `principal` is the one that the context holds, the zero value where it holds none.
pub record WebRequest : Type 0 where
  pub cookie : Option String
  pub form_value : String → String
  pub query : String → String
  pub url_param : String → String
  pub principal : Principal

-- The cookie of the session: left alone, cleared, or set, with its age at most.
pub data SetCookie : Type 0 where
  untouched : SetCookie
  cleared : SetCookie
  session : String → ℤ → SetCookie

-- The partial templates, with their data. The count of a bucket is that of its documents.
pub data Partial : Type 0 where
  project_row : Option Project → Principal → Partial
  bucket_row : Bucket → ℕ → Principal → Partial
  bucket_edit_row : Bucket → ℕ → Partial
  document_row : Option Document → Partial
  document_edit_row : Document → Partial
  doc_tags_inner : String → List String → Partial
  user_row : Option User → Partial
  change_password_row : User → Partial

-- `http_error` is http.Error with a text and a status, `header` is WriteHeader alone.
pub data WebReply : Type 0 where
  redirect : SetCookie → String → WebReply
  login_form : String → String → WebReply
  http_error : String → ℕ → WebReply
  not_found : WebReply
  header : ℕ → WebReply
  partial : Partial → WebReply
  attachment : String → String → ℕ → List ℕ → WebReply
  crashed : WebReply

-- What the handlers work on: the stored files and the connection.
abbrev pub Site : Type 0
Site = Files × Conn Tables

abbrev WebHandler : Type 0
WebHandler = WebRequest → Site → WebReply × Site
