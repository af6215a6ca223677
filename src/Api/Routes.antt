-- ===== src/Api/Routes.antt =====
-- internal/api/routes.go: the routes and the middleware that stands before their handlers. A pattern is
-- the one that chi's router gives for the route; the router itself is not modelled.
pub mod Layers
pub mod Laws
pub mod Rbac
pub mod Gates
pub mod Passing
use tinydm.Prelude.{String, Bool, Option, none, some, List, [], ◌∷◌, ◌++◌}
use tinydm.Auth.Rbac.{
  Action, ResourceType, action_create, action_read, action_update, action_delete, resource_project,
  resource_bucket, resource_document,
}
use tinydm.Api.Routes.Layers.{
  Layer, needs_auth, audited, needs_admin, with_rights, with_project, with_bucket, with_document,
  with_version, gated,
}

pub data Method : Type 0 where
  get : Method
  post : Method
  put : Method
  patch : Method
  delete : Method

-- The handlers
pub data Endpoint : Type 0 where
  auth_login : Endpoint
  auth_me : Endpoint
  audit_list : Endpoint
  list_users : Endpoint
  change_password : Endpoint
  list_api_keys : Endpoint
  create_api_key : Endpoint
  revoke_api_key : Endpoint
  list_projects : Endpoint
  create_project : Endpoint
  get_project : Endpoint
  update_project : Endpoint
  delete_project : Endpoint
  list_buckets : Endpoint
  create_bucket : Endpoint
  get_bucket : Endpoint
  update_bucket : Endpoint
  delete_bucket : Endpoint
  list_documents : Endpoint
  upload : Endpoint
  get_document : Endpoint
  update_document : Endpoint
  delete_document : Endpoint
  download : Endpoint
  list_versions : Endpoint
  restore_version : Endpoint
  list_tags : Endpoint
  replace_tags : Endpoint
  add_tag : Endpoint
  remove_tag : Endpoint
  list_properties : Endpoint
  replace_properties : Endpoint
  set_property : Endpoint
  delete_property : Endpoint
  health : Endpoint
  swagger_ui : Endpoint
  openapi_spec : Endpoint

pub record Route : Type 0 where
  pub method : Method
  pub pattern : String
  pub layers : List Layer
  pub endpoint : Endpoint

-- The groups of `RegisterRoutes`, with the layers that they use
abbrev authenticated : List Layer
authenticated = needs_auth ∷ audited ∷ []

abbrev rbac : List Layer
rbac = authenticated ++ with_rights ∷ []

abbrev in_project : List Layer
in_project = rbac ++ with_project ∷ []

abbrev in_bucket : List Layer
in_bucket = in_project ++ with_bucket ∷ []

abbrev in_document : List Layer
in_document = in_bucket ++ with_document ∷ []

abbrev in_version : List Layer
in_version = in_document ++ with_version ∷ []

-- The ancestors of a bucket and of a document, by the parameters that have their identifiers
abbrev of_project : List (ResourceType × String)
of_project = (resource_project, "projectID") ∷ []

abbrev of_bucket : List (ResourceType × String)
of_bucket = (resource_bucket, "bucketID") ∷ of_project

abbrev route : Method → String → List Layer → Endpoint → Route
route m p layers e = record { method = m; pattern = p; layers = layers; endpoint = e }

-- `RegisterRoutes`
unfoldable pub routes : List Route
routes =
    route Method.post "/api/v1/auth/login" [] Endpoint.auth_login
    ∷ route Method.get "/api/v1/auth/me" (authenticated) Endpoint.auth_me
    ∷ route Method.get "/api/v1/audit" (authenticated ++ needs_admin ∷ []) Endpoint.audit_list
    ∷ route Method.get "/api/v1/users" (authenticated ++ needs_admin ∷ []) Endpoint.list_users
    ∷ route Method.patch "/api/v1/users/{userID}/password" (authenticated ++ needs_admin ∷ [])
        Endpoint.change_password
    ∷ route Method.get "/api/v1/apikeys" (authenticated ++ needs_admin ∷ []) Endpoint.list_api_keys
    ∷ route Method.post "/api/v1/apikeys" (authenticated ++ needs_admin ∷ [])
        Endpoint.create_api_key
    ∷ route Method.post "/api/v1/apikeys/{keyID}/revoke" (authenticated ++ needs_admin ∷ [])
        Endpoint.revoke_api_key
    ∷ route Method.get "/api/v1/projects" (rbac ++ gated action_read resource_project none [] ∷ [])
        Endpoint.list_projects
    ∷ route Method.post "/api/v1/projects"
        (rbac ++ gated action_create resource_project none [] ∷ []) Endpoint.create_project
    ∷ route Method.get "/api/v1/projects/{projectID}"
        (in_project ++ gated action_read resource_project (some "projectID") [] ∷ [])
        Endpoint.get_project
    ∷ route Method.put "/api/v1/projects/{projectID}"
        (in_project ++ gated action_update resource_project (some "projectID") [] ∷ [])
        Endpoint.update_project
    ∷ route Method.delete "/api/v1/projects/{projectID}"
        (in_project ++ gated action_delete resource_project (some "projectID") [] ∷ [])
        Endpoint.delete_project
    ∷ route Method.get "/api/v1/projects/{projectID}/buckets"
        (in_project ++ gated action_read resource_bucket none of_project ∷ []) Endpoint.list_buckets
    ∷ route Method.post "/api/v1/projects/{projectID}/buckets"
        (in_project ++ gated action_create resource_bucket none of_project ∷ [])
        Endpoint.create_bucket
    ∷ route Method.get "/api/v1/projects/{projectID}/buckets/{bucketID}"
        (in_bucket ++ gated action_read resource_bucket (some "bucketID") of_project ∷ [])
        Endpoint.get_bucket
    ∷ route Method.put "/api/v1/projects/{projectID}/buckets/{bucketID}"
        (in_bucket ++ gated action_update resource_bucket (some "bucketID") of_project ∷ [])
        Endpoint.update_bucket
    ∷ route Method.delete "/api/v1/projects/{projectID}/buckets/{bucketID}"
        (in_bucket ++ gated action_delete resource_bucket (some "bucketID") of_project ∷ [])
        Endpoint.delete_bucket
    ∷ route Method.get "/api/v1/projects/{projectID}/buckets/{bucketID}/documents"
        (in_bucket ++ gated action_read resource_document none of_bucket ∷ [])
        Endpoint.list_documents
    ∷ route Method.post "/api/v1/projects/{projectID}/buckets/{bucketID}/documents"
        (in_bucket ++ gated action_create resource_document none of_bucket ∷ []) Endpoint.upload
    ∷ route Method.get "/api/v1/projects/{projectID}/buckets/{bucketID}/documents/{documentID}"
        (in_document ++ gated action_read resource_document (some "documentID") of_bucket ∷ [])
        Endpoint.get_document
    ∷ route Method.put "/api/v1/projects/{projectID}/buckets/{bucketID}/documents/{documentID}"
        (in_document ++ gated action_update resource_document (some "documentID") of_bucket ∷ [])
        Endpoint.update_document
    ∷ route Method.delete "/api/v1/projects/{projectID}/buckets/{bucketID}/documents/{documentID}"
        (in_document ++ gated action_delete resource_document (some "documentID") of_bucket ∷ [])
        Endpoint.delete_document
    ∷ route Method.get
        "/api/v1/projects/{projectID}/buckets/{bucketID}/documents/{documentID}/content"
        (in_document ++ gated action_read resource_document (some "documentID") of_bucket ∷ [])
        Endpoint.download
    ∷ route Method.get
        "/api/v1/projects/{projectID}/buckets/{bucketID}/documents/{documentID}/versions"
        (in_document ++ gated action_read resource_document (some "documentID") of_bucket ∷ [])
        Endpoint.list_versions
    ∷ route Method.post
        "/api/v1/projects/{projectID}/buckets/{bucketID}/documents/{documentID}/versions/{versionID}/restore"
        (in_version ++ gated action_update resource_document (some "documentID") of_bucket ∷ [])
        Endpoint.restore_version
    ∷ route Method.get "/api/v1/projects/{projectID}/buckets/{bucketID}/documents/{documentID}/tags"
        (in_document ++ gated action_read resource_document (some "documentID") of_bucket ∷ [])
        Endpoint.list_tags
    ∷ route Method.put "/api/v1/projects/{projectID}/buckets/{bucketID}/documents/{documentID}/tags"
        (in_document ++ gated action_update resource_document (some "documentID") of_bucket ∷ [])
        Endpoint.replace_tags
    ∷ route Method.post
        "/api/v1/projects/{projectID}/buckets/{bucketID}/documents/{documentID}/tags/{tag}"
        (in_document ++ gated action_update resource_document (some "documentID") of_bucket ∷ [])
        Endpoint.add_tag
    ∷ route Method.delete
        "/api/v1/projects/{projectID}/buckets/{bucketID}/documents/{documentID}/tags/{tag}"
        (in_document ++ gated action_update resource_document (some "documentID") of_bucket ∷ [])
        Endpoint.remove_tag
    ∷ route Method.get
        "/api/v1/projects/{projectID}/buckets/{bucketID}/documents/{documentID}/properties"
        (in_document ++ gated action_read resource_document (some "documentID") of_bucket ∷ [])
        Endpoint.list_properties
    ∷ route Method.put
        "/api/v1/projects/{projectID}/buckets/{bucketID}/documents/{documentID}/properties"
        (in_document ++ gated action_update resource_document (some "documentID") of_bucket ∷ [])
        Endpoint.replace_properties
    ∷ route Method.put
        "/api/v1/projects/{projectID}/buckets/{bucketID}/documents/{documentID}/properties/{key}"
        (in_document ++ gated action_update resource_document (some "documentID") of_bucket ∷ [])
        Endpoint.set_property
    ∷ route Method.delete
        "/api/v1/projects/{projectID}/buckets/{bucketID}/documents/{documentID}/properties/{key}"
        (in_document ++ gated action_update resource_document (some "documentID") of_bucket ∷ [])
        Endpoint.delete_property
    ∷ route Method.get "/health" [] Endpoint.health
    ∷ route Method.get "/api/docs" [] Endpoint.swagger_ui
    ∷ route Method.get "/api/docs/openapi.yaml" [] Endpoint.openapi_spec
    ∷ []
