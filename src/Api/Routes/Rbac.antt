-- ===== src/Api/Routes/Rbac.antt =====
-- Which requests the routes of projects, buckets and documents of internal/api/routes.go let through.
use tinydm.Prelude.{
  String, ◌≡◌, refl, ◌∙◌, ap, sym, subst, ◌⊎◌, inl, inr, true, false, Option, none, some, List, [],
  ◌∷◌, ◌++◌, arith, Bool-cases,
}
use tinydm.Sql.{Conn}
use tinydm.Sql.Quiet.{ticked}
use tinydm.Schema.{Tables}
use tinydm.Auth.{Principal, is_admin}
use tinydm.Auth.Rbac.{PermMode, Action, ResourceType, ResourceAncestor, Right, can}
use tinydm.Auth.Rbac.Decision.{Permits, can_iff}
use tinydm.Api.{Request, Reply, Handler, error_body}
use tinydm.Api.Context.{can_middleware, rights_of, resource_id_of, ancestors_of, rights_ctx}
use tinydm.Api.Context.Access.{held, loaded, not_admin_type}
use tinydm.Api.Routes.Layers.{
  Layer, needs_auth, audited, with_project, with_bucket, with_document, with_version, gated,
  require_auth, param_of, apply, behind, ancestors_by,
}
use tinydm.Api.Routes.Passing.{Stopped, Passed, SameCaller, all_load, behind-append, layers_outcome}
use tinydm.Api.Routes.Laws.{all}
use tinydm.Api.Context.Access
use tinydm.Api.Routes.Layers

-- What a route asks of the rights: the layers between, and what CanMiddleware is given.
pub record Guard : Type 0 where
  pub loading : List Layer
  pub action : Action
  pub type : ResourceType
  pub param : Option String
  pub ancestors : List (ResourceType × String)

abbrev pub guarded : Guard → List Layer
guarded g =
    needs_auth
    ∷ audited
    ∷ Layers.with_rights
    ∷ (g.loading ++ gated g.action g.type g.param g.ancestors ∷ [])

module _ (mode : PermMode) (action : Action) (t : ResourceType) (get_id : Option (Request → String))
    (get_ancestors : Option (Request → List ResourceAncestor)) (next : Handler) (p : Principal)
    (r : Request) (c : Conn Tables) where
  -- CanMiddleware refuses, or the rule of the mode holds of the rights in the context.
  gate_outcome :
      r.principal ≡ some p
      → is_admin p ≡ false
      → (Permits mode (rights_of r) action t (resource_id_of get_id r)
          × (can_middleware mode action t get_id get_ancestors next r c ≡ next r c))
        ⊎ (can_middleware mode action t get_id get_ancestors next r c
            ≡ (error_body 403 "permission denied", c))
  unfolding can_middleware
  gate_outcome who plain =
      let decision =
        can_iff p (rights_of r) mode action t (resource_id_of get_id r)
          (ancestors_of get_ancestors r) in
      elim (Bool-cases (
        can p (rights_of r) mode action t (resource_id_of get_id r)
          (ancestors_of get_ancestors r))) [
            | inl opened ↦ elim (decision.0 opened) [
              | inl admin ↦
                  absurd (not_admin_type mode action t get_id get_ancestors next p r c plain admin)
              | inr granted ↦ inl (granted, ground arith)
            ]
            | inr closed ↦ inr (ground arith)
          ]

-- The request is answered with an error and changes no table, or the rule of the mode permits the
-- action on the resource of the path by the rows that the table holds for the principal, and the
-- handler runs, on the same tables and for the same principal.
abbrev pub Decided :
    PermMode → Guard → Handler → Principal → Request → Conn Tables → Reply × Conn Tables → Type 0
Decided mode g h p r c answer =
    Stopped answer c
    ⊎ (Permits mode (held p c.tables) g.action g.type (resource_id_of (param_of g.param) r)
        × Passed h (Access.with_rights r (held p c.tables)) c answer)

module _ (mode : PermMode) (g : Guard) (h : Handler) (p : Principal) (r : Request)
    (c : Conn Tables) where
  abbrev rights : List Right
  rights = held p c.tables

  abbrev r1 : Request
  r1 = Access.with_rights r rights

  abbrev gate : Handler
  gate = can_middleware mode g.action g.type (param_of g.param) (ancestors_by g.ancestors) h

  id_of_param :
      (o : Option String) (r' : Request)
      → r'.url_param ≡ r.url_param
      → resource_id_of (param_of o) r' ≡ resource_id_of (param_of o) r
  id_of_param none r' e = refl
  id_of_param (some param) r' e = ap (λ f. f param) e

  abbrev gate_layer : Layer
  gate_layer = gated g.action g.type g.param g.ancestors

  required : (next : Handler) → r.principal ≡ some p → require_auth next r c ≡ next r c
  unfolding require_auth
  required next who = ground arith

  to_loading :
      r.principal ≡ some p
      → is_admin p ≡ false
      → (c.world c.tick).fault ≡ none
      → behind mode (guarded g) h r c ≡ behind mode g.loading gate r1 (ticked c)
  unfolding behind apply require_auth
  to_loading who plain q =
      required (rights_ctx (behind mode (g.loading ++ gate_layer ∷ []) h)) who
      ∙ loaded mode g.action g.type (param_of g.param) (ancestors_by g.ancestors) h p r c
          (behind mode (g.loading ++ gate_layer ∷ []) h) who plain q
      ∙ ap (λ f. f r1 (ticked c)) (behind-append mode g.loading (gate_layer ∷ []) h)

  held_still : (r' : Request) → r'.rights ≡ r1.rights → rights_of r' ≡ rights
  held_still r' e = ground arith

  past_gate :
      (r' : Request) (c' : Conn Tables) (answer : Reply × Conn Tables)
      → r.principal ≡ some p
      → is_admin p ≡ false
      → SameCaller r1 r'
      → c'.tables ≡ c.tables
      → answer ≡ gate r' c'
      → Decided mode g h p r c answer
  past_gate r' c' answer who plain (caller, (loaded, path)) kept ran =
      elim (gate_outcome mode g.action g.type (param_of g.param) (ancestors_by g.ancestors) h p r'
        c' (caller ∙ who) plain) [
          | inl (granted, through) ↦ inr (
            subst (λ i. Permits mode rights g.action g.type i) (id_of_param g.param r' path)
                (subst (λ x. Permits mode x g.action g.type (resource_id_of (param_of g.param) r'))
                  (held_still r' loaded) granted),
            (r', (c', ((caller, (loaded, path)), (kept, ran ∙ through)))),
          )
          | inr refused ↦ inl (subst (λ x. Stopped x c) (sym (ran ∙ refused)) (omega arith, kept))
        ]

  -- A guard decides.
  pub guarded_lem :
      all_load g.loading ≡ true
      → r.principal ≡ some p
      → is_admin p ≡ false
      → (c.world c.tick).fault ≡ none
      → Decided mode g h p r c (behind mode (guarded g) h r c)
  guarded_lem all who plain q =
      subst (Decided mode g h p r c) (sym (to_loading who plain q))
        (elim (layers_outcome mode g.loading gate r1 (ticked c) all) [
          | inl stop ↦ inl stop
          | inr (r', (c', (same, (kept, ran)))) ↦ past_gate r' c' _ who plain same kept ran
        ])
