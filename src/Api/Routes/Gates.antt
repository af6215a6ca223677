-- ===== src/Api/Routes/Gates.antt =====
-- The guards of the routes of projects, buckets and documents of internal/api/routes.go.
use tinydm.Prelude.{
  both_of, String, ◌≡◌, refl, ap, sym, subst, inl, inr, Bool, true, false, not, ◌&&◌, ◌||◌, Option,
  none, some, List, [], ◌∷◌, ◌++◌, Memᴰ, arith, if◌then◌else◌, ◌==◌, eq_iff, Bool-cases,
}
use tinydm.Prelude.Texts.{has_prefix, cut}
use tinydm.Sql.{Conn}
use tinydm.Schema.{Tables}
use tinydm.Auth.{Principal, is_admin}
use tinydm.Auth.Rbac.{
  PermMode, Action, ResourceType, action_create, action_read, action_update, action_delete,
  resource_project, resource_bucket, resource_document,
}
use tinydm.Api.{Request, Handler}
use tinydm.Api.Routes.Layers.{
  Layer, needs_auth, audited, needs_admin, with_rights, with_project, with_bucket, with_document,
  with_version, gated, behind,
}
use tinydm.Api.Routes.Passing.{all_load, loads}
use tinydm.Api.Routes.Laws.{all, all-mem}
use tinydm.Api.Routes.Rbac.{Guard, guarded, Decided, guarded_lem}
use tinydm.Api.Routes.{Route, Method, get, post, put, patch, delete, routes}

abbrev extended : Layer → Option Guard → Option Guard
extended l none = none
extended l (some g) = if loads l then some (record g { loading = l ∷ g.loading }) else none

-- The guard at the end of layers that load resources.
gate_of : List Layer → Option Guard
gate_of [] = none
gate_of (gated action type param ancestors ∷ []) =
    some
      (record { loading = []; action = action; type = type; param = param; ancestors = ancestors })
gate_of (gated action type param ancestors ∷ l ∷ layers) = none
gate_of (l ∷ layers) = extended l (gate_of layers)

guard_of : List Layer → Option Guard
guard_of (needs_auth ∷ audited ∷ with_rights ∷ layers) = gate_of layers
guard_of _ = none

abbrev Sound : List Layer → Guard → Type 0
Sound layers g =
    (layers ≡ g.loading ++ gated g.action g.type g.param g.ancestors ∷ [])
    × (all_load g.loading ≡ true)

extended-Sound :
    (l : Layer) (layers : List Layer) (o : Option Guard) (g : Guard)
    → ((g' : Guard) → o ≡ some g' → Sound layers g')
    → extended l o ≡ some g
    → Sound (l ∷ layers) g
extended-Sound l layers none g before h = cc
extended-Sound l layers (some g') g before h = elim (Bool-cases (loads l)) [
  | inl load ↦
      let same : record g' { loading = l ∷ g'.loading } ≡ g = ground arith in
      let (e, all) = before g' refl in
      subst (Sound (l ∷ layers)) same (ap (λ ls. l ∷ ls) e, rw load all)
  | inr other ↦ absurd (ground arith)
]

gate_of-Sound : (layers : List Layer) (g : Guard) → gate_of layers ≡ some g → Sound layers g
unfolding gate_of
gate_of-Sound [] g h = cc
gate_of-Sound (gated action type param ancestors ∷ []) g h =
    let whole : Guard = record {
      loading = [];
      action = action;
      type = type;
      param = param;
      ancestors = ancestors;
    } in
    let same : whole ≡ g = ground arith in
    subst (Sound (gated action type param ancestors ∷ [])) same (refl, refl)
gate_of-Sound (gated action type param ancestors ∷ l ∷ layers) g h = cc
gate_of-Sound (needs_auth ∷ layers) g h =
    extended-Sound needs_auth layers (gate_of layers) g (gate_of-Sound layers) h
gate_of-Sound (audited ∷ layers) g h =
    extended-Sound audited layers (gate_of layers) g (gate_of-Sound layers) h
gate_of-Sound (needs_admin ∷ layers) g h =
    extended-Sound needs_admin layers (gate_of layers) g (gate_of-Sound layers) h
gate_of-Sound (with_rights ∷ layers) g h =
    extended-Sound with_rights layers (gate_of layers) g (gate_of-Sound layers) h
gate_of-Sound (with_project ∷ layers) g h =
    extended-Sound with_project layers (gate_of layers) g (gate_of-Sound layers) h
gate_of-Sound (with_bucket ∷ layers) g h =
    extended-Sound with_bucket layers (gate_of layers) g (gate_of-Sound layers) h
gate_of-Sound (with_document ∷ layers) g h =
    extended-Sound with_document layers (gate_of layers) g (gate_of-Sound layers) h
gate_of-Sound (with_version ∷ layers) g h =
    extended-Sound with_version layers (gate_of layers) g (gate_of-Sound layers) h

-- The routes of projects, buckets and documents
abbrev is_resource : Route → Bool
is_resource e = has_prefix e.pattern "/api/v1/projects"

abbrev contains : String → String → Bool
contains s part = elim (cut s part) [ none ↦ false | some _ ↦ true ]

-- The resource that a path is about, and the action on it that a method is: what lies below a
-- document belongs to it, and writing it is an update of the document.
pub expected_type : String → ResourceType
expected_type pattern =
    if contains pattern "/documents"
    then resource_document
    else if contains pattern "/buckets"
    then resource_bucket
    else resource_project

pub expected_action : Method → String → Action
expected_action get pattern = action_read
expected_action put pattern = action_update
expected_action patch pattern = action_update
expected_action post pattern =
    if contains pattern "{documentID}/" then action_update else action_create
expected_action delete pattern =
    if contains pattern "{documentID}/" then action_update else action_delete

-- The parameter that identifies the resource, where the path goes on after its collection.
pub expected_param : String → Option String
expected_param pattern =
    if contains pattern "{documentID}"
    then some "documentID"
    else if contains pattern "/documents"
    then none
    else if contains pattern "{bucketID}"
    then some "bucketID"
    else if contains pattern "/buckets"
    then none
    else if contains pattern "{projectID}"
    then some "projectID"
    else none

same_param : Option String → Option String → Bool
same_param none none = true
same_param (some a) (some b) = a == b
same_param none (some b) = false
same_param (some a) none = false

abbrev as_expected : Route → Option Guard → Bool
as_expected e none = false
as_expected e (some g) =
    g.action == expected_action e.method e.pattern
    && (g.type == expected_type e.pattern && same_param g.param (expected_param e.pattern))

routes_match : all (λ e. not (is_resource e) || as_expected e (guard_of e.layers)) routes ≡ true
unfolding routes guard_of gate_of expected_action expected_type expected_param same_param cut
routes_match = refl

same_param-eq : (a b : Option String) → same_param a b ≡ true → a ≡ b
unfolding same_param
same_param-eq none none h = refl
same_param-eq (some a) (some b) h = ap some ((eq_iff a b).0 h)
same_param-eq none (some b) h = cc
same_param-eq (some a) none h = cc

-- The guard of a route is what its method and its path call for.
abbrev pub Expected : Route → Guard → Type 0
Expected e g =
    (g.action ≡ expected_action e.method e.pattern)
    × ((g.type ≡ expected_type e.pattern) × (g.param ≡ expected_param e.pattern))

guard_found :
    (e : Route) (o : Option Guard)
    → guard_of e.layers ≡ o
    → as_expected e o ≡ true
    → (g : Guard) × ((guard_of e.layers ≡ some g) × Expected e g)
guard_found e none at h = cc
guard_found e (some g) at h =
    let (type, param) = both_of _ _ (both_of _ _ h).1 in
    (g, (at, ((eq_iff _ _).0 (both_of _ _ h).0, ((eq_iff _ _).0 type, same_param-eq _ _ param))))

guard_of_sound :
    (layers : List Layer) (g : Guard)
    → guard_of layers ≡ some g
    → (layers ≡ guarded g) × (all_load g.loading ≡ true)
unfolding guard_of
guard_of_sound (needs_auth ∷ audited ∷ with_rights ∷ layers) g h =
    let (e, all) = gate_of-Sound layers g h in
    (ap (λ ls. needs_auth ∷ audited ∷ with_rights ∷ ls) e, all)
guard_of_sound layers g h = cc

-- Each route of projects, buckets and documents has the guard that its method and its path call for,
-- and a request of a principal who is no administrator, where the query of the rights does not fail,
-- is answered with an error and changes no table, or the rule of the mode permits the action on the
-- resource of the path by the principal's rows, and only then does the handler run.
pub routes_decide :
    (mode : PermMode) (h : Handler) (p : Principal) (r : Request) (c : Conn Tables) (e : Route)
    → Memᴰ e routes
    → is_resource e ≡ true
    → r.principal ≡ some p
    → is_admin p ≡ false
    → (c.world c.tick).fault ≡ none
    → (g : Guard) × (Expected e g × Decided mode g h p r c (behind mode e.layers h r c))
routes_decide mode h p r c e m resource who plain q =
    let checked =
      all-mem (λ e. not (is_resource e) || as_expected e (guard_of e.layers)) routes e routes_match
        m in
    let (g, (at, expected)) = guard_found e (guard_of e.layers) refl (ground arith) in
    let (shape, loading) = guard_of_sound e.layers g at in
    (
      g,
      (
        expected,
        subst (λ l. Decided mode g h p r c (behind mode l h r c)) (sym shape)
            (guarded_lem mode g h p r c loading who plain q),
      ),
    )
