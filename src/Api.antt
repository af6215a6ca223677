-- ===== src/Api.antt =====
-- internal/api/handler.go: requests, replies and pages. The children model the middleware and the
-- handlers of the package. The body of a request, as `decode` reads it, is an argument of the handlers
-- that read it: what it holds, or none where it is not valid.
pub mod Context
pub mod Projects
pub mod Buckets
pub mod Tags
pub mod Properties
pub mod Users
pub mod Login
pub mod Documents
pub mod Security
pub mod Routes
pub mod Audit
use tinydm.Prelude.Int.{wrap64}
use tinydm.Strconv.{atoi}
use tinydm.Sql.{◌>>◌, continue, wrap, plain, driver, conflict, Error, Result, ok, err, Conn}
use tinydm.Schema.{Store, Project, Bucket, Document, DocumentVersion, Property, Tables}
use tinydm.Prelude.{
  ◌≡◌, ap, ◌∙◌, ℕ, zero, suc, ◌+◌, ◌-◌, ◌*◌, ◌^◌, String, Bool, true, false, ◌&&◌, ◌||◌, Option,
  none, some, List, [], ◌∷◌, eqb, leb, ltb, if◌then◌else◌,
}
use Prim.Native.Char.{code}
use Prim.Native.String.{◌++◌}
use tinydm.Prelude.Int.{ℤ, pos, negsuc, ltb_ℤ, leb_ℤ, ◌+ℤ◌}
use tinydm.Sql.Like.{codes}
use tinydm.Auth.{Principal}
use tinydm.Auth.Rbac.{Right}
use tinydm.Auth.Users.{User}
use tinydm.Audit.Store.{Event}
use tinydm.Repo.{PageOpts, default_page_limit, max_page_limit}

-- The request: the parameters of its path and of its query, and what the context holds.
pub record Request : Type 0 where
  pub url_param : String → String
  pub query : String → String
  pub principal : Option Principal
  pub rights : Option (List Right)
  pub project : Option Project
  pub bucket : Option Bucket
  pub document : Option Document
  pub version : Option DocumentVersion

pub record PagedMeta : Type 0 where
  pub total : ℕ
  pub limit : ℤ
  pub offset : ℤ
  pub has_more : Bool

-- The users and keys without what must stay secret.
pub record SafeUser : Type 0 where
  pub id : String
  pub username : String
  pub email : String
  pub first_name : String
  pub last_name : String
  pub user_type : String
  pub is_active : Bool

pub record SafeKey : Type 0 where
  pub id : String
  pub name : String
  pub key_prefix : String

-- What is encoded into the body.
pub data Payload : Type 0 where
  one_project : Option Project → Payload
  one_bucket : Option Bucket → Payload
  tags : List String → Payload
  properties : List (String × String) → Payload
  projects : List Project → PagedMeta → Payload
  buckets : List Bucket → PagedMeta → Payload
  users : List SafeUser → PagedMeta → Payload
  api_keys : List SafeKey → PagedMeta → Payload
  created_key : SafeKey → String → Payload
  login_response : String → String → String → String → Payload
  me_response : Principal → Payload
  one_document : Option Document → Payload
  documents : List Document → PagedMeta → Payload
  versions : List DocumentVersion → PagedMeta → Payload
  events : List Event → PagedMeta → Payload

-- A status and a body, a file with its type, its disposition and its length, or the panic of a nil dereference.
pub data Reply : Type 0 where
  json : ℕ → Payload → Reply
  error_body : ℕ → String → Reply
  no_content : Reply
  content : String → String → ℕ → List ℕ → Reply
  panicked : Reply

abbrev pub Handler : Type 0
Handler = Request → Conn Tables → Reply × Conn Tables

-- `pageParams`
unfoldable pub page_params : Request → PageOpts
page_params r =
    let limit = atoi (r.query "limit") in
    let offset = atoi (r.query "offset") in
    let limit' = if leb_ℤ limit (pos 0) then default_page_limit else limit in
    record {
      limit = if ltb_ℤ max_page_limit limit' then max_page_limit else limit';
      offset = if ltb_ℤ offset (pos 0) then pos 0 else offset;
    }

-- The envelope of `writePaged`, whose sum is an int
unfoldable pub paged_meta : ℕ → ℤ → ℤ → PagedMeta
paged_meta total limit offset = record {
  total = total;
  limit = limit;
  offset = offset;
  has_more = ltb_ℤ (wrap64 (offset +ℤ limit)) (pos total);
}

abbrev pub internal_error : Reply
internal_error = error_body 500 "internal error"

-- A handler that reads a resource from the context, and panics where there is none.
abbrev with_value :
    {A : Type 0}
    → Option A
    → (A → Conn Tables → Reply × Conn Tables)
    → Conn Tables
    → Reply × Conn Tables
with_value none f c = (panicked, c)
with_value (some a) f c = f a c

-- The reply to a write: `errors.As(err, &conflict)` tells a conflict from the other errors.
abbrev conflict_or_internal : Error → Reply
conflict_or_internal (conflict message) = error_body 409 message
conflict_or_internal (driver m) = internal_error
conflict_or_internal (plain m) = internal_error
conflict_or_internal (wrap context e) = conflict_or_internal e

abbrev pub answer :
    {A : Type 0} → (Error → Reply) → (A → Reply) → Result A × Conn Tables → Reply × Conn Tables
answer on_err on_ok (ok a, c) = (on_ok a, c)
answer on_err on_ok (err e, c) = (on_err e, c)

abbrev pub internal : Error → Reply
internal e = internal_error

-- A write that is done, and the reading that follows it.
pub answer-then :
    {A : Type 0} (m : Store (Unit {0})) (read : Store A) (f : A → Reply) (c x y : Conn Tables)
    (a : A)
    → m c ≡ (ok tt, x)
    → read x ≡ (ok a, y)
    → answer internal f ((m >> read) c) ≡ (f a, y)
answer-then m read f c x y a done found =
    ap (λ z. answer internal f (continue z.0 (λ _. read) z.1)) done ∙ ap (answer internal f) found
