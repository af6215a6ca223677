-- ===== src/Audit/Middleware.antt =====
-- internal/audit/middleware.go: `Middleware`, around a handler of internal/api. The writing of the
-- event, in a goroutine of its own, is modelled at the end of the request; its error is dropped.
pub mod Laws
use tinydm.Prelude.{
  ℕ, String, Bool, true, false, ◌&&◌, ◌||◌, not, Option, none, some, ltb, leb, List, if◌then◌else◌,
  ◌==◌,
}
use tinydm.Sql.{Conn}
use tinydm.Schema.{Tables}
use tinydm.Auth.{Principal}
use tinydm.Api.{Request, Reply, json, error_body, no_content, content, panicked, Handler}
use tinydm.Audit.Store.{Event, record_event}
use tinydm.Audit.Action.{derive_action, derive_resource}

abbrev is_reading : String → Bool
is_reading method = method == "GET" || (method == "HEAD" || method == "OPTIONS")

-- The status that the reply has sent; a panic goes past the middleware.
abbrev status_of : Reply → Option ℕ
status_of (json status payload) = some status
status_of (error_body status message) = some status
status_of no_content = some 204
status_of (content type disposition size bytes) = some 200
status_of panicked = none

abbrev is_success : Option ℕ → Bool
is_success none = false
is_success (some status) = not (ltb status 200 || leb 300 status)

-- What is recorded of a request: the principal's name, the action and the resource.
pub record Entry : Type 0 where
  pub principal : String
  pub action : String
  pub resource : String

unfoldable pub entry : String → String → Request → Reply → Option Entry
entry method pattern r reply =
    if is_reading method
    then none
    else if not (is_success (status_of reply))
    then none
    else elim r.principal [
      | none ↦ none
      | some p ↦ some (record {
        principal = p.username;
        action = derive_action method pattern;
        resource = derive_resource r.url_param;
      })
    ]

abbrev written : String → Option Entry → Conn (List Event) → Conn (List Event)
written id none log = log
written id (some e) log = (record_event id e.principal e.action e.resource "" log).1

-- `Middleware`; `id` is the new identifier of the event.
unfoldable pub middleware :
    String
    → String
    → String
    → Handler
    → Request
    → Conn Tables
    → Conn (List Event)
    → Reply × (Conn Tables × Conn (List Event))
middleware id method pattern next r c log =
    let (reply, c') = next r c in (reply, (c', written id (entry method pattern r reply) log))
