-- ===== src/Api/Context.antt =====
-- internal/api/context.go: the middleware that loads rights and resources, and that asks `can`.
pub mod Access
pub mod Resources
use tinydm.Prelude.{String, not, Option, none, some, List, [], if◌then◌else◌, ◌==◌}
use tinydm.Sql.{Result, ok, err}
use tinydm.Auth.{is_admin, auth_method_api_key}
use tinydm.Auth.Rbac.{Right, PermMode, Action, ResourceType, ResourceAncestor, can}
use tinydm.Auth.Rights.{get_api_key_rights, get_user_rights}
use tinydm.Repo.Projects.{get_project}
use tinydm.Repo.Buckets.{get_bucket}
use tinydm.Repo.Documents.{get_document}
use tinydm.Repo.Versions.{get_document_version}
use tinydm.Api.{Request, error_body, panicked, Handler, internal_error}

abbrev or_empty : Result (List Right) → List Right
or_empty (ok rights) = rights
or_empty (err e) = []

-- `RightsCtx`; an error of the query is dropped, and leaves no rights.
unfoldable pub rights_ctx : Handler → Handler
rights_ctx next r c = elim r.principal [
  | none ↦ next r c
  | some p ↦
      if is_admin p
      then next r c
      else let (rights, c') =
          if p.auth_method == auth_method_api_key
          then get_api_key_rights p.id c
          else get_user_rights p.id c in
        next (record r { rights = some (or_empty rights) }) c'
]

-- The value of the context, nil where there is none.
abbrev pub rights_of : Request → List Right
rights_of r = elim r.rights [ none ↦ [] | some rights ↦ rights ]

abbrev pub resource_id_of : Option (Request → String) → Request → String
resource_id_of none r = "*"
resource_id_of (some get) r = get r

abbrev pub ancestors_of : Option (Request → List ResourceAncestor) → Request → List ResourceAncestor
ancestors_of none r = []
ancestors_of (some get) r = get r

-- `CanMiddleware`
unfoldable pub can_middleware :
    PermMode
    → Action
    → ResourceType
    → Option (Request → String)
    → Option (Request → List ResourceAncestor)
    → Handler
    → Handler
can_middleware mode action resource_type get_resource_id get_ancestors next r c = elim r.principal [
  | none ↦ (error_body 401 "authentication required", c)
  | some p ↦
      if is_admin p
      then next r c
      else if not (
          can p (rights_of r) mode action resource_type (resource_id_of get_resource_id r)
            (ancestors_of get_ancestors r))
      then (error_body 403 "permission denied", c)
      else next r c
]

-- `ProjectCtx`
unfoldable pub project_ctx : Handler → Handler
project_ctx next r c =
    let (found, c') = get_project (r.url_param "projectID") c in
    elim found [
      | err e ↦ (internal_error, c')
      | ok none ↦ (error_body 404 "project not found", c')
      | ok (some p) ↦ next (record r { project = some p }) c'
    ]

-- `BucketCtx`; without a project in the context the comparison panics.
unfoldable pub bucket_ctx : Handler → Handler
bucket_ctx next r c =
    let (found, c') = get_bucket (r.url_param "bucketID") c in
    elim found [
      | err e ↦ (internal_error, c')
      | ok none ↦ (error_body 404 "bucket not found", c')
      | ok (some b) ↦ elim r.project [
        | none ↦ (panicked, c')
        | some p ↦
            if not (b.project_id == p.id)
            then (error_body 404 "bucket not found", c')
            else next (record r { bucket = some b }) c'
      ]
    ]

-- `DocumentCtx`
unfoldable pub document_ctx : Handler → Handler
document_ctx next r c =
    let (found, c') = get_document (r.url_param "documentID") c in
    elim found [
      | err e ↦ (internal_error, c')
      | ok none ↦ (error_body 404 "document not found", c')
      | ok (some d) ↦ elim r.bucket [
        | none ↦ (panicked, c')
        | some b ↦
            if not (d.bucket_id == b.id)
            then (error_body 404 "document not found", c')
            else next (record r { document = some d }) c'
      ]
    ]

-- `VersionCtx`
unfoldable pub version_ctx : Handler → Handler
version_ctx next r c = elim r.document [
  | none ↦ (panicked, c)
  | some d ↦
      let (found, c') = get_document_version (r.url_param "versionID") d.id c in
      elim found [
        | err e ↦ (internal_error, c')
        | ok none ↦ (error_body 404 "version not found", c')
        | ok (some v) ↦ next (record r { version = some v }) c'
      ]
]
