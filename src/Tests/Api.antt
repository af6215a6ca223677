-- ===== src/Tests/Api.antt =====
-- Requests to the API.
use tinydm.Prelude.{String, ◌≡◌, refl, ◌⊎◌, Option, none, some, [], ◌∷◌, ◌==◌, if◌then◌else◌}
use tinydm.Sql.{Conn}
use tinydm.Sql.Quiet.{ticked}
use tinydm.Schema.{RightRow, Tables}
use tinydm.Auth.{Principal, is_admin}
use tinydm.Auth.Rbac.{perm_mode_explicit, action_update, resource_document}
use tinydm.Auth.Rbac.Decision.{Permits}
use tinydm.Api.{Request, Handler, no_content, error_body}
use tinydm.Api.Context.{rights_ctx, can_middleware, project_ctx, bucket_ctx, document_ctx}
use tinydm.Api.Context.Access.{held, with_rights, rights_ctx-can_middleware}
use tinydm.Api.Context.Resources.{Refused, Reached, document_ctx_lem}
use tinydm.Tests.{conn}

abbrev row : RightRow
row = record {
  id = "r";
  principal_type = "user";
  principal_id = "ann";
  resource_type = "document";
  resource_id = "d";
  can_create = 0;
  can_read = 1;
  can_update = 0;
  can_delete = 0;
}

abbrev pub rights_conn : Conn Tables
rights_conn = record conn {
  tables = record (conn.tables) {
    projects =
        record {
          value = record {
            id = "p";
            name = "x";
            description = "";
            created_at = "";
            updated_at = "";
          };
          deleted_at = none;
        }
        ∷ [];
    rights = row ∷ [];
  };
}

abbrev broken : Conn Tables
broken = record rights_conn { world = λ n. record { fault = some "timeout"; now = "now" } }

abbrev pub ann : String → Principal
ann method = record { id = "ann"; username = "ann"; user_type = "user"; auth_method = method }

abbrev pub request : Principal → Request
request p = record {
  url_param = λ name. if name == "projectID" then "p" else if name == "bucketID" then "b" else "d";
  query = λ name. "";
  principal = some p;
  rights = none;
  project = none;
  bucket = none;
  document = none;
  version = none;
}

abbrev pub done : Handler
done r c = (no_content, c)

abbrev id : Option (Request → String)
id = some (λ r. r.url_param "documentID")

rights_ctx-can_middleware_example :
    (Permits perm_mode_explicit
        (held (ann "bearer") rights_conn.tables)
        action_update
        resource_document
        "d"
      × (rights_ctx
            (can_middleware perm_mode_explicit action_update resource_document id none done)
            (request (ann "bearer"))
            rights_conn
          ≡ done
              (with_rights (request (ann "bearer")) (held (ann "bearer") rights_conn.tables))
              (ticked rights_conn)))
    ⊎ ((¬ Permits perm_mode_explicit
          (held (ann "bearer") rights_conn.tables)
          action_update
          resource_document
          "d")
        × (rights_ctx
              (can_middleware perm_mode_explicit action_update resource_document id none done)
              (request (ann "bearer"))
              rights_conn
            ≡ (error_body 403 "permission denied", ticked rights_conn)))
unfolding is_admin
rights_ctx-can_middleware_example =
    rights_ctx-can_middleware perm_mode_explicit action_update resource_document id none done
      (ann "bearer") (request (ann "bearer")) rights_conn refl refl refl

document_ctx_example :
    Refused
      (project_ctx (bucket_ctx (document_ctx done)) (request (ann "bearer")) rights_conn)
      rights_conn
    ⊎ Reached done
        (request (ann "bearer"))
        rights_conn
        (project_ctx (bucket_ctx (document_ctx done)) (request (ann "bearer")) rights_conn)
document_ctx_example = document_ctx_lem done (request (ann "bearer")) rights_conn
