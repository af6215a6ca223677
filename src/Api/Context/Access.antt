-- ===== src/Api/Context/Access.antt =====
-- `RightsCtx` and `CanMiddleware` of internal/api/context.go, one around the other: which requests
-- reach the handler, by the rows of the table of rights.
use mathlib.Core.Bool.{true≢false}
use tinydm.Prelude.{
  ◌⊎◌, ap, subst, sym, ◌∙◌, inl, inr, eq_iff, String, ◌≡◌, false, Option, none, some, List, map,
  arith, Bool-cases, if◌then◌else◌, ◌==◌, ◌&&◌,
}
use tinydm.Auth.Rbac.Open.{NotDenied}
use tinydm.Auth.Rbac.Decision.{Permits, can_iff}
use tinydm.Api.{error_body, true, [], Request, Handler}
use tinydm.Api.Context.{ancestors_of, can, can_middleware, resource_id_of, rights_ctx}
use tinydm.Auth.Rbac.{perm_mode_open, Right, PermMode, Action, ResourceType, ResourceAncestor}
use tinydm.Auth.{user_type_admin, Principal, is_admin, auth_method_api_key}
use tinydm.Sql.{Conn}
use tinydm.Sql.Quiet.{ticked}
use tinydm.Sql.Table.{select_all}
use tinydm.Schema.{Tables}
use tinydm.Auth.Rights.{scan_right, held_by_user, get_user_rights, get_api_key_rights}

-- The rights that the table holds for a principal: for a key those of the key that has the
-- principal's identifier, for others those of the user and of the groups that the user is in.
abbrev pub held : Principal → Tables → List Right
held p t =
    if p.auth_method == auth_method_api_key
    then map scan_right
        (select_all (λ r. r.principal_type == "apikey" && r.principal_id == p.id) t.rights)
    else map scan_right (select_all (held_by_user p.id t) t.rights)

-- The request with rights in its context.
abbrev pub with_rights : Request → List Right → Request
with_rights r rights = record r { rights = some rights }

module _ (mode : PermMode) (action : Action) (t : ResourceType) (get_id : Option (Request → String))
    (get_ancestors : Option (Request → List ResourceAncestor)) (next : Handler) (p : Principal)
    (r : Request) (c : Conn Tables) where
  pub loaded :
      (h : Handler)
      → r.principal ≡ some p
      → is_admin p ≡ false
      → (c.world c.tick).fault ≡ none
      → rights_ctx h r c ≡ h (with_rights r (held p c.tables)) (ticked c)
  unfolding rights_ctx get_user_rights get_api_key_rights
  loaded h who plain q = elim (Bool-cases (p.auth_method == auth_method_api_key)) [
    | inl key ↦ ground arith
    | inr other ↦ ground arith
  ]

  abbrev id_of : List Right → String
  id_of rights = resource_id_of get_id (with_rights r rights)

  allowed :
      (rights : List Right) (c' : Conn Tables)
      → r.principal ≡ some p
      → is_admin p ≡ false
      → can p rights mode action t
          (id_of rights)
          (ancestors_of get_ancestors (with_rights r rights))
        ≡ true
      → can_middleware mode action t get_id get_ancestors next (with_rights r rights) c'
        ≡ next (with_rights r rights) c'
  unfolding can_middleware
  allowed rights c' who plain granted = ground arith

  refused :
      (rights : List Right) (c' : Conn Tables)
      → r.principal ≡ some p
      → is_admin p ≡ false
      → can p rights mode action t
          (id_of rights)
          (ancestors_of get_ancestors (with_rights r rights))
        ≡ false
      → can_middleware mode action t get_id get_ancestors next (with_rights r rights) c'
        ≡ (error_body 403 "permission denied", c')
  unfolding can_middleware
  refused rights c' who plain denied = ground arith

  pub not_admin_type : is_admin p ≡ false → p.user_type ≡ user_type_admin → ⊥
  unfolding is_admin
  not_admin_type plain admin = ground (arith, eq_iff p.user_type user_type_admin)

  -- A request of a principal who is no administrator, where the query of the rights does not fail,
  -- reaches the handler exactly if the rule of the mode permits the action by the rows that the table
  -- holds for the principal, and is otherwise refused with 403, no table changed.
  pub rights_ctx-can_middleware :
      r.principal ≡ some p
      → is_admin p ≡ false
      → (c.world c.tick).fault ≡ none
      → (Permits mode (held p c.tables) action t (id_of (held p c.tables))
          × (rights_ctx (can_middleware mode action t get_id get_ancestors next) r c
              ≡ next (with_rights r (held p c.tables)) (ticked c)))
        ⊎ ((¬ Permits mode (held p c.tables) action t (id_of (held p c.tables)))
            × (rights_ctx (can_middleware mode action t get_id get_ancestors next) r c
                ≡ (error_body 403 "permission denied", ticked c)))
  rights_ctx-can_middleware who plain q =
      let rights = held p c.tables in
      let ancestors = ancestors_of get_ancestors (with_rights r rights) in
      let start = loaded (can_middleware mode action t get_id get_ancestors next) who plain q in
      let decision = can_iff p rights mode action t (id_of rights) ancestors in
      elim (Bool-cases (can p rights mode action t (id_of rights) ancestors)) [
        | inl opened ↦ elim (decision.0 opened) [
          | inl admin ↦ absurd (not_admin_type plain admin)
          | inr granted ↦ inl (granted, start ∙ allowed rights (ticked c) who plain opened)
        ]
        | inr closed ↦ inr (
          λ granted. true≢false (sym (decision.1 (inr granted)) ∙ closed),
          start ∙ refused rights (ticked c) who plain closed,
        )
      ]

  -- Where the query of the rights fails, open mode lets the request of any principal through to the
  -- handler, whatever the rows of the table refuse.
  pub rights_ctx_fails_open :
      (message : String)
      → r.principal ≡ some p
      → is_admin p ≡ false
      → mode ≡ perm_mode_open
      → (c.world c.tick).fault ≡ some message
      → rights_ctx (can_middleware mode action t get_id get_ancestors next) r c
        ≡ next (with_rights r []) (ticked c)
  unfolding rights_ctx get_user_rights get_api_key_rights
  rights_ctx_fails_open message who plain opened failed =
      let ancestors = ancestors_of get_ancestors (with_rights r []) in
      let decision = can_iff p [] mode action t (id_of []) ancestors in
      let granted = decision.1 (inr (inl (opened, inl tt))) in
      let through = allowed [] (ticked c) who plain granted in
      elim (Bool-cases (p.auth_method == auth_method_api_key)) [
        | inl key ↦ ground arith
        | inr other ↦ ground arith
      ]

  held_by_key :
      p.auth_method ≡ auth_method_api_key
      → select_all (λ x. x.principal_type == "apikey" && x.principal_id == p.id) c.tables.rights
        ≡ []
      → held p c.tables ≡ []
  held_by_key key unlisted = ground (arith, eq_iff p.auth_method auth_method_api_key)

  -- The rights of a user do not bind the user's API keys: in open mode, where no row is for an API key
  -- with the identifier of the user, each request that such a key makes reaches the handler,
  -- whatever rows refuse the user.
  pub key_of_user_unbound :
      r.principal ≡ some p
      → is_admin p ≡ false
      → p.auth_method ≡ auth_method_api_key
      → mode ≡ perm_mode_open
      → (c.world c.tick).fault ≡ none
      → select_all (λ x. x.principal_type == "apikey" && x.principal_id == p.id) c.tables.rights
        ≡ []
      → rights_ctx (can_middleware mode action t get_id get_ancestors next) r c
        ≡ next (with_rights r []) (ticked c)
  key_of_user_unbound who plain key opened q unlisted =
      let nothing = held_by_key key unlisted in
      let rights = held p c.tables in
      let ancestors = ancestors_of get_ancestors (with_rights r rights) in
      let denied_none =
        subst (λ rights. NotDenied rights action t (id_of rights)) (sym nothing) (inl tt) in
      let opens =
        (can_iff p rights mode action t (id_of rights) ancestors).1
          (inr (inl (opened, denied_none))) in
      loaded (can_middleware mode action t get_id get_ancestors next) who plain q
      ∙ allowed rights (ticked c) who plain opens
      ∙ ap (λ rights. next (with_rights r rights) (ticked c)) nothing
