-- ===== src/Auth/Rbac/Open.antt =====
-- What `can_open` of internal/auth/rbac.go decides, in open mode, and how it compares with explicit
-- mode.
use tinydm.Prelude.{
  String, ◌≡◌, refl, ◌∙◌, ◌↔◌, ◌⊎◌, inl, inr, true, false, List, [], ◌∷◌, arith, eq_iff, All,
}
use tinydm.Auth.Rbac.{Action, ResourceType, Right, right_grants_action, can_open, check_rights}
use tinydm.Auth.Rbac.Laws.{Applies}

-- `r` is the first row of the list that is for the resource.
pub data First (t : ResourceType) (i : String) (r : Right) : List Right → Type 0 where
  here : {x : Right} {rights : List Right} → r ≡ x → Applies t i r → First t i r (x ∷ rights)
  later :
      {x : Right} {rights : List Right}
      → ¬ Applies t i x
      → First t i r rights
      → First t i r (x ∷ rights)

-- No row is for the resource, or the first that is grants the action.
abbrev pub NotDenied : List Right → Action → ResourceType → String → Type 0
NotDenied rights action t i =
    All (λ r. ¬ Applies t i r) rights
    ⊎ ((r : Right) × First t i r rights × (right_grants_action r action ≡ true))

module _ (action : Action) (t : ResourceType) (i : String) where
  can_open-cons :
      (r : Right) (rights : List Right)
      → (Applies t i r × (can_open (r ∷ rights) action t i ≡ right_grants_action r action))
        ⊎ ((¬ Applies t i r) × (can_open (r ∷ rights) action t i ≡ can_open rights action t i))
  unfolding can_open
  can_open-cons r rights =
      ground (arith, eq_iff r.resource_type t, eq_iff r.resource_id i, eq_iff r.resource_id "*")

  can_open_sound :
      (rights : List Right) → can_open rights action t i ≡ true → NotDenied rights action t i
  can_open_sound [] h = inl tt
  can_open_sound (r ∷ rights) h = elim (can_open-cons r rights) [
    | inl (applies, e) ↦ inr (r, First.here refl applies, cc)
    | inr (other, e) ↦ elim (can_open_sound rights (cc)) [
      | inl free ↦ inl (other, free)
      | inr (s, first, grants) ↦ inr (s, First.later other first, grants)
    ]
  ]

  can_open_free :
      (rights : List Right) → All (λ r. ¬ Applies t i r) rights → can_open rights action t i ≡ true
  unfolding can_open
  can_open_free [] h = refl
  can_open_free (r ∷ rights) (other, free) = elim (can_open-cons r rights) [
    | inl (applies, e) ↦ absurd (other applies)
    | inr (_, e) ↦ e ∙ can_open_free rights free
  ]

  can_open-First :
      {r : Right} {rights : List Right}
      → First t i r rights
      → can_open rights action t i ≡ right_grants_action r action
  can_open-First {r} (First.here {x} {rights} e h) = elim (can_open-cons x rights) [
    | inl (_, q) ↦ rw e q
    | inr (other, _) ↦ absurd (other (rw (← e) h))
  ]
  can_open-First (First.later {x} {rights} other f) = elim (can_open-cons x rights) [
    | inl (applies, _) ↦ absurd (other applies)
    | inr (_, q) ↦ q ∙ can_open-First f
  ]

-- In open mode access is given exactly when no row is for the resource, or the first row that is
-- grants the action.
pub can_open_iff :
    (rights : List Right) (action : Action) (t : ResourceType) (i : String)
    → (can_open rights action t i ≡ true) ↔ NotDenied rights action t i
can_open_iff rights action t i = (
  can_open_sound action t i rights,
  elim [
    | inl free ↦ can_open_free action t i rights free
    | inr (r, first, grants) ↦ can_open-First action t i first ∙ grants
  ],
)

-- With a row that refuses the action and one that grants it, both for the resource, explicit mode
-- gives access in either order, and open mode refuses it if the refusing row comes first.
pub open_depends_on_order :
    (action : Action) (t : ResourceType) (i : String) (d g : Right) (rights : List Right)
    → Applies t i d
    → Applies t i g
    → right_grants_action d action ≡ false
    → right_grants_action g action ≡ true
    → (can_open (d ∷ g ∷ rights) action t i ≡ false)
      × (can_open (g ∷ d ∷ rights) action t i ≡ true)
      × (check_rights (d ∷ g ∷ rights) action t i ≡ true)
      × (check_rights (g ∷ d ∷ rights) action t i ≡ true)
unfolding can_open check_rights
open_depends_on_order action t i d g rights hd hg nd ng = ground (
  arith,
  eq_iff d.resource_type t,
  eq_iff d.resource_id i,
  eq_iff d.resource_id "*",
  eq_iff g.resource_type t,
  eq_iff g.resource_id i,
  eq_iff g.resource_id "*",
)
