-- ===== src/Auth/Rbac/Decision.antt =====
-- What `can` of internal/auth/rbac.go decides, for every principal and mode.
use mathlib.Core.Logic.{◌≢◌}
use tinydm.Prelude.{String, ◌≡◌, ◌↔◌, ◌⊎◌, inl, inr, true, List, arith, eq_iff, Bool-cases, ◌==◌}
use tinydm.Auth.{Principal, is_admin, user_type_admin}
use tinydm.Auth.Rbac.{Right, PermMode, Action, ResourceType, ResourceAncestor, perm_mode_open, can}
use tinydm.Auth.Rbac.Laws.{Granted, check_rights_iff}
use tinydm.Auth.Rbac.Open.{NotDenied, can_open_iff}

-- The rule that a mode stands for; every text but "open" stands for explicit mode.
abbrev pub Permits : PermMode → List Right → Action → ResourceType → String → Type 0
Permits mode rights action t i =
    ((mode ≡ perm_mode_open) × NotDenied rights action t i)
    ⊎ ((mode ≢ perm_mode_open) × Granted rights action t i)

module _ (p : Principal) (rights : List Right) (mode : PermMode) (action : Action)
    (t : ResourceType) (i : String) (ancestors : List ResourceAncestor) where
  can_sound :
      can p rights mode action t i ancestors ≡ true
      → (p.user_type ≡ user_type_admin) ⊎ Permits mode rights action t i
  unfolding can is_admin
  can_sound h = elim (Bool-cases (p.user_type == user_type_admin)) [
    | inl admin ↦ inl ((eq_iff _ _).0 admin)
    | inr other ↦ elim (Bool-cases (mode == perm_mode_open)) [
      | inl opened ↦
          inr (inl ((eq_iff _ _).0 opened, (can_open_iff rights action t i).0 (ground arith)))
      | inr closed ↦ inr (
          inr (
            ground (arith, eq_iff mode perm_mode_open),
            (check_rights_iff rights action t i).0 (ground arith),
          ))
    ]
  ]

  can_complete :
      (p.user_type ≡ user_type_admin) ⊎ Permits mode rights action t i
      → can p rights mode action t i ancestors ≡ true
  unfolding can is_admin
  can_complete (inl admin) = ground (arith, eq_iff p.user_type user_type_admin)
  can_complete (inr (inl (opened, h))) =
      ground (arith, eq_iff mode perm_mode_open, (can_open_iff rights action t i).1 h)
  can_complete (inr (inr (closed, h))) =
      ground (arith, eq_iff mode perm_mode_open, (check_rights_iff rights action t i).1 h)

-- A principal may act exactly if it is an administrator, or the mode's rule permits it: in open mode
-- that the first row for the resource, if there is one, grants the action; in any other mode that
-- some row for it does. The ancestors have no influence.
pub can_iff :
    (p : Principal) (rights : List Right) (mode : PermMode) (action : Action) (t : ResourceType)
    (i : String) (ancestors : List ResourceAncestor)
    → (can p rights mode action t i ancestors ≡ true)
      ↔ ((p.user_type ≡ user_type_admin) ⊎ Permits mode rights action t i)
can_iff p rights mode action t i ancestors =
    (can_sound p rights mode action t i ancestors, can_complete p rights mode action t i ancestors)
