-- ===== src/Api/Routes/Layers.antt =====
-- internal/api/routes.go: the layers of middleware, and what stands behind a list of them.
use tinydm.Prelude.{String, not, Option, none, some, List, [], ◌∷◌, map, if◌then◌else◌}
use tinydm.Auth.{is_admin}
use tinydm.Auth.Rbac.{PermMode, Action, ResourceType, ResourceAncestor}
use tinydm.Api.{Request, Handler, error_body}
use tinydm.Api.Context.{
  rights_ctx, can_middleware, project_ctx, bucket_ctx, document_ctx, version_ctx,
}

-- `gated` is CanMiddleware: the action, the type of the resource, the parameter with its identifier,
-- and the types and parameters of its ancestors. `audited` is the audit's middleware, which acts after
-- the handler, on a table of its own.
pub data Layer : Type 0 where
  needs_auth : Layer
  audited : Layer
  needs_admin : Layer
  with_rights : Layer
  with_project : Layer
  with_bucket : Layer
  with_document : Layer
  with_version : Layer
  gated : Action → ResourceType → Option String → List (ResourceType × String) → Layer

-- `auth.RequireAuth`, before the handlers of the package
unfoldable pub require_auth : Handler → Handler
require_auth next r c = elim r.principal [
  | none ↦ (error_body 401 "authentication required", c)
  | some p ↦ next r c
]

-- `auth.RequireAdmin`
unfoldable pub require_admin : Handler → Handler
require_admin next r c = elim r.principal [
  | none ↦ (error_body 401 "authentication required", c)
  | some p ↦ if not (is_admin p) then (error_body 403 "admin access required", c) else next r c
]

-- func(r *http.Request) string { return chi.URLParam(r, param) }
abbrev pub param_of : Option String → Option (Request → String)
param_of none = none
param_of (some param) = some (λ r. r.url_param param)

abbrev pub ancestors_by : List (ResourceType × String) → Option (Request → List ResourceAncestor)
ancestors_by [] = none
ancestors_by (a ∷ ancestors) =
    some (λ r. map (λ x. record { type = x.0; id = r.url_param x.1 }) (a ∷ ancestors))

unfoldable pub apply : PermMode → Layer → Handler → Handler
apply mode needs_auth next = require_auth next
apply mode audited next = next
apply mode needs_admin next = require_admin next
apply mode with_rights next = rights_ctx next
apply mode with_project next = project_ctx next
apply mode with_bucket next = bucket_ctx next
apply mode with_document next = document_ctx next
apply mode with_version next = version_ctx next
apply mode (gated action type param ancestors) next =
    can_middleware mode action type (param_of param) (ancestors_by ancestors) next

-- A handler behind its layers, the outermost first
unfoldable pub behind : PermMode → List Layer → Handler → Handler
behind mode [] h = h
behind mode (l ∷ layers) h = apply mode l (behind mode layers h)
