-- ===== src/Auth/Users/Safety.antt =====
-- No sequence of user operations disables or removes an administrator.
use tinydm.Auth.Users.Effects.{
  change_tables, enable_tables, disable_tables, delete_tables, either_tables,
}
use tinydm.Prelude.{
  sym, String, ◌≡◌, refl, ◌∙◌, Bool, true, false, some, List, [], ◌∷◌, arith, ◌==◌, eq_iff,
  Bool-cases, inl, inr,
}
use tinydm.Auth.Users.{
  new_user, create_user, change_password, set_user_active, delete_user, get_user_by_id,
}
use tinydm.Sql.{Conn}
use tinydm.Sql.Table.{update_live}
use tinydm.Sql.Table.Find.{
  find, find-update_self, find-update_ne, find-mark_live_ne, find-insert_found,
}
use tinydm.Schema.{UserRow, Tables}
use tinydm.Auth.{UserType, user_type_admin}

-- The live user with the identifier is an administrator and active.
abbrev pub ActiveAdmin : String → Tables → Type 0
ActiveAdmin id t =
    (u : UserRow) × (find (λ u. u.id) id t.users ≡ some u)
    × (u.user_type ≡ user_type_admin)
    × (u.is_active ≡ 1)

module _ (id : String) where
  kept_by_update :
      (k : String) (f : UserRow → UserRow) (t : Tables)
      → ((u : UserRow) → (f u).id ≡ u.id)
      → ((u : UserRow)
          → k ≡ id
          → u.user_type ≡ user_type_admin
          → u.is_active ≡ 1
          → ((f u).user_type ≡ user_type_admin) × ((f u).is_active ≡ 1))
      → ActiveAdmin id t
      → ActiveAdmin id (record t { users = update_live (λ u. u.id == k) f t.users })
  kept_by_update k f t same keep (u, found, admin, active) = elim (Bool-cases (id == k)) [
    | inl here ↦
        let e = (eq_iff id k).0 here in
        (
          f u,
          rw (← e) (find-update_self (λ u. u.id) id f same t.users u found),
          (keep u (sym e) admin active).0,
          (keep u (sym e) admin active).1,
        )
    | inr other ↦ (
      u,
      find-update_ne (λ u. u.id) k f id same (ground (arith, eq_iff id k)) t.users ∙ found,
      admin,
      active,
    )
  ]

  kept_by_create :
      (k username email first_name last_name hash : String) (user_type : UserType) (c : Conn Tables)
      → ActiveAdmin id c.tables
      → ActiveAdmin id (create_user k username email first_name last_name hash user_type c).1.tables
  unfolding create_user get_user_by_id
  kept_by_create k username email first_name last_name hash user_type c (u, found, admin, active) =
      (
        u,
        ground (
          arith,
          find-insert_found (λ u. u.id) id
              (new_user k username email first_name last_name hash user_type) u c.tables.users
              found,
        ),
        admin,
        active,
      )

  kept_by_change :
      (k hash : String) (c : Conn Tables)
      → ActiveAdmin id c.tables
      → ActiveAdmin id (change_password k hash c).1.tables
  kept_by_change k hash c h =
      let f = λ (u : UserRow). record u { password_hash = hash } in
      either_tables (ActiveAdmin id) (change_tables k hash c) h
        (kept_by_update k f c.tables (λ u. refl) (λ u e a b. (a, b)) h)

  kept_by_enable :
      (k : String) (c : Conn Tables)
      → ActiveAdmin id c.tables
      → ActiveAdmin id (set_user_active k true c).1.tables
  kept_by_enable k c h =
      let f = λ (u : UserRow). record u { is_active = 1 } in
      either_tables (ActiveAdmin id) (enable_tables k c) h
        (kept_by_update k f c.tables (λ u. refl) (λ u e a b. (a, refl)) h)

  kept_by_disable :
      (k : String) (c : Conn Tables)
      → ActiveAdmin id c.tables
      → ActiveAdmin id (set_user_active k false c).1.tables
  kept_by_disable k c h = elim (disable_tables k c) [
    | inl same ↦ rw same h
    | inr (free, e) ↦
        let f = λ (u : UserRow). record u { is_active = 0 } in
        rw e (
          kept_by_update k f c.tables (λ u. refl)
            (λ u here a b. absurd (free h.0 (rw here h.1) h.2)) h)
  ]

  kept_by_delete :
      (k : String) (c : Conn Tables)
      → ActiveAdmin id c.tables
      → ActiveAdmin id (delete_user k c).1.tables
  kept_by_delete k c h = elim (delete_tables k c) [
    | inl same ↦ rw same h
    | inr (free, (now, e)) ↦ rw e (
      h.0,
      find-mark_live_ne (λ u. u.id) k now id (λ here. free h.0 (rw (← here) h.1) h.2) c.tables.users
          ∙ h.1,
      h.2,
      h.3,
    )
  ]

-- The operations of the store that write users.
pub data UserOp : Type 0 where
  create : String → String → String → String → String → String → UserType → UserOp
  change : String → String → UserOp
  set_active : String → Bool → UserOp
  delete : String → UserOp

-- The connection after an operation, whatever it reported.
abbrev pub after : UserOp → Conn Tables → Conn Tables
after (create k username email first_name last_name hash user_type) c =
    (create_user k username email first_name last_name hash user_type c).1
after (change k hash) c = (change_password k hash c).1
after (set_active k active) c = (set_user_active k active c).1
after (delete k) c = (delete_user k c).1

pub after_all : List UserOp → Conn Tables → Conn Tables
after_all [] c = c
after_all (op ∷ ops) c = after_all ops (after op c)

pub after-ActiveAdmin :
    (id : String) (op : UserOp) (c : Conn Tables)
    → ActiveAdmin id c.tables
    → ActiveAdmin id (after op c).tables
after-ActiveAdmin id (create k username email first_name last_name hash user_type) c h =
    kept_by_create id k username email first_name last_name hash user_type c h
after-ActiveAdmin id (change k hash) c h = kept_by_change id k hash c h
after-ActiveAdmin id (set_active k true) c h = kept_by_enable id k c h
after-ActiveAdmin id (set_active k false) c h = kept_by_disable id k c h
after-ActiveAdmin id (delete k) c h = kept_by_delete id k c h

-- Whatever users are created, deleted, enabled, disabled or given another password, in any order and
-- with any failures of the driver, an active administrator stays one.
pub after_all-ActiveAdmin :
    (id : String) (ops : List UserOp) (c : Conn Tables)
    → ActiveAdmin id c.tables
    → ActiveAdmin id (after_all ops c).tables
unfolding after_all
after_all-ActiveAdmin id [] c h = h
after_all-ActiveAdmin id (op ∷ ops) c h =
    after_all-ActiveAdmin id ops (after op c) (after-ActiveAdmin id op c h)
