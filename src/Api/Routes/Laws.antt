-- ===== src/Api/Routes/Laws.antt =====
-- Who reaches the handlers of internal/api/routes.go.
use tinydm.Prelude.{
  ◌≡◌, refl, ◌∙◌, ap, Bool, true, false, not, ◌&&◌, ◌||◌, none, some, List, [], ◌∷◌, Memᴰ, arith,
  ◌==◌,
}
use tinydm.Prelude.Texts.{has_prefix}
use tinydm.Sql.{Conn}
use tinydm.Schema.{Tables}
use tinydm.Auth.{Principal, is_admin}
use tinydm.Auth.Rbac.{PermMode}
use tinydm.Api.{Request, Handler, error_body}
use tinydm.Api.Routes.Layers.{
  Layer, needs_auth, audited, needs_admin, with_rights, with_project, with_bucket, with_document,
  with_version, gated, require_auth, require_admin, apply, behind,
}
use tinydm.Api.Routes.{Route, routes}

abbrev pub all : (Route → Bool) → List Route → Bool
all p [] = true
all p (e ∷ es) = p e && all p es

pub all-mem :
    (p : Route → Bool) (es : List Route) (e : Route) → all p es ≡ true → Memᴰ e es → p e ≡ true
all-mem p [] e h m = elim m [ ]
all-mem p (x ∷ es) e h (Memᴰ.head same) = ap p same ∙ (ground arith)
all-mem p (x ∷ es) e h (Memᴰ.tail m) = all-mem p es e (ground arith) m

-- All routes under /api/v1 but the login
abbrev pub is_protected : Route → Bool
is_protected e = has_prefix e.pattern "/api/v1/" && not (e.pattern == "/api/v1/auth/login")

abbrev begins_with_auth : List Layer → Bool
begins_with_auth (needs_auth ∷ layers) = true
begins_with_auth _ = false

protected_begin : all (λ e. not (is_protected e) || begins_with_auth e.layers) routes ≡ true
unfolding routes
protected_begin = refl

module _ (mode : PermMode) (h : Handler) (r : Request) (c : Conn Tables) where
  anonymous_lem :
      (layers : List Layer)
      → begins_with_auth layers ≡ true
      → r.principal ≡ none
      → behind mode layers h r c ≡ (error_body 401 "authentication required", c)
  unfolding behind apply require_auth
  anonymous_lem [] b who = cc
  anonymous_lem (needs_auth ∷ layers) b who = ground arith
  anonymous_lem (audited ∷ layers) b who = cc
  anonymous_lem (needs_admin ∷ layers) b who = cc
  anonymous_lem (with_rights ∷ layers) b who = cc
  anonymous_lem (with_project ∷ layers) b who = cc
  anonymous_lem (with_bucket ∷ layers) b who = cc
  anonymous_lem (with_document ∷ layers) b who = cc
  anonymous_lem (with_version ∷ layers) b who = cc
  anonymous_lem (gated action type param ancestors ∷ layers) b who = cc

-- A request without a principal gets 401 from every route under /api/v1 but the login, whatever the
-- handler is, and no table is read.
pub anonymous_refused :
    (mode : PermMode) (h : Handler) (r : Request) (c : Conn Tables) (e : Route)
    → Memᴰ e routes
    → is_protected e ≡ true
    → r.principal ≡ none
    → behind mode e.layers h r c ≡ (error_body 401 "authentication required", c)
anonymous_refused mode h r c e m protected who =
    let begins =
      all-mem (λ e. not (is_protected e) || begins_with_auth e.layers) routes e protected_begin m in
    anonymous_lem mode h r c e.layers (ground arith) who

-- The routes of users, API keys and the audit log
abbrev is_administration : Route → Bool
is_administration e =
    has_prefix e.pattern "/api/v1/users"
    || (has_prefix e.pattern "/api/v1/apikeys" || has_prefix e.pattern "/api/v1/audit")

abbrev begins_with_admin : List Layer → Bool
begins_with_admin (needs_auth ∷ audited ∷ needs_admin ∷ layers) = true
begins_with_admin _ = false

administration_begin :
    all (λ e. not (is_administration e) || begins_with_admin e.layers) routes ≡ true
unfolding routes
administration_begin = refl

admin_lem :
    (mode : PermMode) (h : Handler) (p : Principal) (r : Request) (c : Conn Tables)
    (layers : List Layer)
    → begins_with_admin layers ≡ true
    → r.principal ≡ some p
    → is_admin p ≡ false
    → behind mode layers h r c ≡ (error_body 403 "admin access required", c)
unfolding behind apply require_auth require_admin
admin_lem mode h p r c (needs_auth ∷ audited ∷ needs_admin ∷ layers) b who plain = ground arith
admin_lem mode h p r c layers b who plain = cc

-- A request of a principal who is no administrator gets 403 from every route of users, API keys and
-- the audit log, whatever the handler is, and no table is read.
pub administration_refused :
    (mode : PermMode) (h : Handler) (p : Principal) (r : Request) (c : Conn Tables) (e : Route)
    → Memᴰ e routes
    → is_administration e ≡ true
    → r.principal ≡ some p
    → is_admin p ≡ false
    → behind mode e.layers h r c ≡ (error_body 403 "admin access required", c)
administration_refused mode h p r c e m administration who plain =
    let begins =
      all-mem (λ e. not (is_administration e) || begins_with_admin e.layers) routes e
        administration_begin m in
    admin_lem mode h p r c e.layers (ground arith) who plain
