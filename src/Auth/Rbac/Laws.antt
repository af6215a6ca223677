-- ===== src/Auth/Rbac/Laws.antt =====
-- What `check_rights` of internal/auth/rbac.go decides, in explicit mode.
use mathlib.Core.List.{Perm, Permᴰ}
use mathlib.Core.Bool.{Bool-set}
use mathlib.Core.Logic.{∥∥₁_elim}
use tinydm.Prelude.{
  String, ◌≡◌, refl, ◌∙◌, ◌↔◌, ◌⊎◌, inl, inr, true, List, [], ◌∷◌, Memᴰ, arith, eq_iff,
}
use tinydm.Auth.Rbac.{Action, ResourceType, Right, right_grants_action, check_rights}

-- The row is for the resource: by its id or by the wildcard.
abbrev pub Applies : ResourceType → String → Right → Type 0
Applies resource_type resource_id r =
    (r.resource_type ≡ resource_type) × ((r.resource_id ≡ resource_id) ⊎ (r.resource_id ≡ "*"))

-- Some row of the list is for the resource and grants the action.
abbrev pub Granted : List Right → Action → ResourceType → String → Type 0
Granted rights action resource_type resource_id =
    (r : Right) × Memᴰ r rights
    × Applies resource_type resource_id r
    × (right_grants_action r action ≡ true)

module _ (action : Action) (t : ResourceType) (i : String) where
  check_rights_here :
      (r : Right) (rights : List Right)
      → Applies t i r
      → right_grants_action r action ≡ true
      → check_rights (r ∷ rights) action t i ≡ true
  unfolding check_rights
  check_rights_here r rights h g =
      ground (arith, eq_iff r.resource_type t, eq_iff r.resource_id i, eq_iff r.resource_id "*")

  check_rights_later :
      (r : Right) (rights : List Right)
      → check_rights rights action t i ≡ true
      → check_rights (r ∷ rights) action t i ≡ true
  unfolding check_rights
  check_rights_later r rights h = ground arith

  -- A row that grants is found; otherwise the answer comes from the rest of the list.
  check_rights-cons :
      (r : Right) (rights : List Right)
      → check_rights (r ∷ rights) action t i ≡ true
      → (Applies t i r × (right_grants_action r action ≡ true))
        ⊎ (check_rights rights action t i ≡ true)
  unfolding check_rights
  check_rights-cons r rights h =
      ground (arith, eq_iff r.resource_type t, eq_iff r.resource_id i, eq_iff r.resource_id "*")

  check_rights_sound :
      (rights : List Right) → check_rights rights action t i ≡ true → Granted rights action t i
  check_rights_sound [] h = absurd (unfold check_rights in cc h)
  check_rights_sound (r ∷ rights) h = elim (check_rights-cons r rights h) [
    | inl (applies, grants) ↦ (r, Memᴰ.head refl, applies, grants)
    | inr later ↦
        let (s, listed, applies, grants) = check_rights_sound rights later in
        (s, Memᴰ.tail listed, applies, grants)
  ]

  check_rights_complete :
      {r : Right} {rights : List Right}
      → Memᴰ r rights
      → Applies t i r
      → right_grants_action r action ≡ true
      → check_rights rights action t i ≡ true
  check_rights_complete (Memᴰ.head {xs} e) h g = rw (← e) (check_rights_here _ xs h g)
  check_rights_complete (Memᴰ.tail {x} {xs} m) h g =
      check_rights_later x xs (check_rights_complete m h g)

-- In explicit mode access is given exactly when some row for the resource, by id or by the wildcard,
-- grants the action.
pub check_rights_iff :
    (rights : List Right) (action : Action) (t : ResourceType) (i : String)
    → (check_rights rights action t i ≡ true) ↔ Granted rights action t i
check_rights_iff rights action t i =
    (check_rights_sound action t i rights, λ (r, m, h, g). check_rights_complete action t i m h g)

module _ (action : Action) (t : ResourceType) (i : String) where
  check_rights-swap :
      (a b : Right) (rights : List Right)
      → check_rights (a ∷ b ∷ rights) action t i ≡ check_rights (b ∷ a ∷ rights) action t i
  unfolding check_rights
  check_rights-swap a b rights = ground arith

  check_rights-cons_congr :
      (a : Right) (xs ys : List Right)
      → check_rights xs action t i ≡ check_rights ys action t i
      → check_rights (a ∷ xs) action t i ≡ check_rights (a ∷ ys) action t i
  unfolding check_rights
  check_rights-cons_congr a xs ys h = ground arith

  check_rights_permᴰ :
      {xs ys : List Right} → Permᴰ xs ys → check_rights xs action t i ≡ check_rights ys action t i
  check_rights_permᴰ Permᴰ.nil = refl
  check_rights_permᴰ (Permᴰ.cons {a} {b} {l₁} {l₂} e p) =
      rw (← e) (check_rights-cons_congr a l₁ l₂ (check_rights_permᴰ p))
  check_rights_permᴰ (Permᴰ.swap {a} {b} {l} e f) = rw (← e, ← f) (check_rights-swap a b l)
  check_rights_permᴰ (Permᴰ.trans p q) = check_rights_permᴰ p ∙ check_rights_permᴰ q

-- The order in which the database returns the rows does not matter in explicit mode.
pub check_rights-perm :
    (action : Action) (t : ResourceType) (i : String) (xs ys : List Right)
    → Perm xs ys
    → check_rights xs action t i ≡ check_rights ys action t i
check_rights-perm action t i xs ys p = ∥∥₁_elim p (Bool-set _ _) (check_rights_permᴰ action t i)
