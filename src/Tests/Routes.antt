-- ===== src/Tests/Routes.antt =====
-- Requests to routes.
use tinydm.Prelude.{◌≡◌, refl, none, [], ◌∷◌, Memᴰ}
use tinydm.Prelude.Texts.{has_suffix}
use tinydm.Auth.Rbac.{perm_mode_open, action_create, resource_project}
use tinydm.Auth.{is_admin}
use tinydm.Api.{Request, error_body}
use tinydm.Api.Routes.Layers.{behind, needs_auth, audited, needs_admin, with_rights, gated}
use tinydm.Api.Routes.Laws.{anonymous_refused, administration_refused}
use tinydm.Api.Routes.Rbac.{Guard, Decided}
use tinydm.Api.Routes.Gates.{Expected, routes_decide}
use tinydm.Api.Routes.{Route, Endpoint, Method, routes}
use tinydm.Audit.Action.{derive_action, split, walk, action_of, singularize, method_verb}
use tinydm.Audit.Action.Laws.{method_text, action_names_operation}
use tinydm.Tests.Api.{request, ann, done, rights_conn}

abbrev me : Route
me = record {
  method = Method.get;
  pattern = "/api/v1/auth/me";
  layers = needs_auth ∷ audited ∷ [];
  endpoint = Endpoint.auth_me;
}

abbrev audit : Route
audit = record {
  method = Method.get;
  pattern = "/api/v1/audit";
  layers = needs_auth ∷ audited ∷ needs_admin ∷ [];
  endpoint = Endpoint.audit_list;
}

abbrev creating : Route
creating = record {
  method = Method.post;
  pattern = "/api/v1/projects";
  layers = needs_auth ∷ audited ∷ with_rights ∷ gated action_create resource_project none [] ∷ [];
  endpoint = Endpoint.create_project;
}

me-registered : Memᴰ me routes
unfolding routes
me-registered = Memᴰ.tail (Memᴰ.head refl)

audit-registered : Memᴰ audit routes
unfolding routes
audit-registered = Memᴰ.tail (Memᴰ.tail (Memᴰ.head refl))

creating-registered : Memᴰ creating routes
unfolding routes
creating-registered = Memᴰ.tail (
    Memᴰ.tail (
      Memᴰ.tail
        (Memᴰ.tail (Memᴰ.tail (Memᴰ.tail (Memᴰ.tail (Memᴰ.tail (Memᴰ.tail (Memᴰ.head refl)))))))))

abbrev anonymous : Request
anonymous = record (request (ann "bearer")) { principal = none }

anonymous_refused_example :
    behind perm_mode_open me.layers done anonymous rights_conn
    ≡ (error_body 401 "authentication required", rights_conn)
anonymous_refused_example =
    anonymous_refused perm_mode_open done anonymous rights_conn me me-registered refl refl

administration_refused_example :
    behind perm_mode_open audit.layers done (request (ann "bearer")) rights_conn
    ≡ (error_body 403 "admin access required", rights_conn)
unfolding is_admin
administration_refused_example =
    administration_refused perm_mode_open done (ann "bearer") (request (ann "bearer")) rights_conn
      audit audit-registered refl refl refl

routes_decide_example :
    (g : Guard) × (Expected creating g
      × Decided perm_mode_open g done
          (ann "bearer")
          (request (ann "bearer"))
          rights_conn
          (behind perm_mode_open creating.layers done (request (ann "bearer")) rights_conn))
unfolding is_admin
routes_decide_example =
    routes_decide perm_mode_open done (ann "bearer") (request (ann "bearer")) rights_conn creating
      creating-registered refl refl refl refl

action_names_operation_example :
    (method_text creating.method ≡ method_text creating.method)
    × (creating.pattern ≡ creating.pattern)
unfolding method_text
action_names_operation_example =
    action_names_operation creating creating creating-registered creating-registered refl refl refl

-- The action of an upload.
upload_action :
    derive_action "POST" "/api/v1/projects/{projectID}/buckets/{bucketID}/documents"
    ≡ "document.create"
unfolding derive_action split walk action_of singularize method_verb has_suffix
upload_action = refl
