-- ===== src/Audit/Action/Laws.antt =====
-- The actions that internal/audit/middleware.go derives for the routes of internal/api/routes.go.
use tinydm.Prelude.{
  both_of, String, ◌≡◌, refl, Bool, true, ◌&&◌, ◌||◌, not, Memᴰ, arith, ◌==◌, eq_iff,
}
use tinydm.Prelude.Texts.{has_suffix}
use tinydm.Api.Routes.{Route, Method, get, post, put, patch, delete, routes}
use tinydm.Api.Routes.Laws.{all, all-mem, is_protected}
use tinydm.Audit.Action.{derive_action, walk, split, action_of, method_verb, singularize, to_lower}

-- The text of a method
unfoldable pub method_text : Method → String
method_text get = "GET"
method_text post = "POST"
method_text put = "PUT"
method_text patch = "PATCH"
method_text delete = "DELETE"

-- The routes whose requests are recorded: those that change something, behind the login
abbrev pub is_recorded : Route → Bool
is_recorded e = is_protected e && not (method_text e.method == "GET")

abbrev action_at : Route → String
action_at e = derive_action (method_text e.method) e.pattern

abbrev same_operation : Route → Route → Bool
same_operation d e = method_text d.method == method_text e.method && d.pattern == e.pattern

abbrev distinct_from : Route → Route → Bool
distinct_from d e =
    not (is_recorded d)
    || (not (is_recorded e) || (not (action_at d == action_at e) || same_operation d e))

all_distinct : all (λ d. all (distinct_from d) routes) routes ≡ true
unfolding routes derive_action walk split action_of method_verb singularize to_lower has_suffix
    method_text
all_distinct = refl

then_same :
    (a b s o : Bool)
    → (not a || (not b || (not s || o))) ≡ true
    → a ≡ true
    → b ≡ true
    → s ≡ true
    → o ≡ true
then_same a b s o h ha hb hs = ground arith

-- Two recorded routes with one action are one: an action of the audit log names the operation.
pub action_names_operation :
    (d e : Route)
    → Memᴰ d routes
    → Memᴰ e routes
    → is_recorded d ≡ true
    → is_recorded e ≡ true
    → action_at d ≡ action_at e
    → (method_text d.method ≡ method_text e.method) × (d.pattern ≡ e.pattern)
action_names_operation d e md me rd re same =
    let distinct =
      all-mem (distinct_from d) routes e
        (all-mem (λ d. all (distinct_from d) routes) routes d all_distinct md) me in
    let (method, pattern) =
      both_of _ _
        (then_same _ _ _ _ distinct rd re ((eq_iff (action_at d) (action_at e)).1 same)) in
    ((eq_iff _ _).0 method, (eq_iff _ _).0 pattern)
