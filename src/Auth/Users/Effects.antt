-- ===== src/Auth/Users/Effects.antt =====
-- What the operations on users of internal/auth/store.go do to the tables.
use tinydm.Prelude.{
  subst, ◌⊎◌, sym, ◌+◌, String, ◌≡◌, true, false, Option, none, some, arith, ◌==◌, eq_iff,
  Bool-cases, Option-cases, inl, inr,
}
use tinydm.Auth.Users.{
  is_admin_user, change_password, set_user_active, delete_user, get_user_by_id, scan_user,
}
use tinydm.Sql.{Conn}
use tinydm.Sql.Table.{update_live, mark_live_deleted}
use tinydm.Sql.Table.Find.{find}
use tinydm.Schema.{UserRow, Tables}
use tinydm.Auth.{user_type_admin}

-- What the operations do to the tables, whether or not the driver fails.
pub change_tables :
    (k hash : String) (c : Conn Tables)
    → ((change_password k hash c).1.tables ≡ c.tables)
      ⊎ ((change_password k hash c).1.tables ≡ record c.tables {
        users =
            update_live (λ u. u.id == k) (λ u. record u { password_hash = hash }) c.tables.users;
      })
unfolding change_password
change_tables k hash c = ground arith

pub enable_tables :
    (k : String) (c : Conn Tables)
    → ((set_user_active k true c).1.tables ≡ c.tables)
      ⊎ ((set_user_active k true c).1.tables ≡ record c.tables {
        users = update_live (λ u. u.id == k) (λ u. record u { is_active = 1 }) c.tables.users;
      })
unfolding set_user_active
enable_tables k c = ground arith

pub not_admin :
    (o : Option UserRow) (u : UserRow)
    → is_admin_user (scan_user o) ≡ false
    → o ≡ some u
    → u.user_type ≡ user_type_admin
    → ⊥
not_admin none u h e a = cc
not_admin (some v) u h e a = ground (arith, eq_iff u.user_type user_type_admin)

-- The live user with the identifier, if any, is no administrator.
abbrev NoAdmin : String → Tables → Type 0
NoAdmin k t =
    (u : UserRow) → find (λ u. u.id) k t.users ≡ some u → u.user_type ≡ user_type_admin → ⊥

pub disable_tables :
    (k : String) (c : Conn Tables)
    → ((set_user_active k false c).1.tables ≡ c.tables)
      ⊎ (NoAdmin k c.tables
          × ((set_user_active k false c).1.tables ≡ record c.tables {
            users = update_live (λ u. u.id == k) (λ u. record u { is_active = 0 }) c.tables.users;
          }))
unfolding set_user_active get_user_by_id
disable_tables k c =
    let o = find (λ u. u.id) k c.tables.users in
    elim (Option-cases (c.world c.tick).fault) [
      | inr failed ↦ inl (ground arith)
      | inl quiet ↦ elim (Bool-cases (is_admin_user (scan_user o))) [
        | inl admin ↦ inl (ground arith)
        | inr free ↦ elim (Option-cases (c.world (c.tick + 1)).fault) [
          | inl quiet' ↦ inr (λ u found a. not_admin o u free found a, ground arith)
          | inr failed ↦ inl (ground arith)
        ]
      ]
    ]

pub delete_tables :
    (k : String) (c : Conn Tables)
    → ((delete_user k c).1.tables ≡ c.tables)
      ⊎ (NoAdmin k c.tables
          × ((now : String) × ((delete_user k c).1.tables ≡ record c.tables {
            users = mark_live_deleted (λ u. u.id == k) now c.tables.users;
          })))
unfolding delete_user get_user_by_id
delete_tables k c =
    let o = find (λ u. u.id) k c.tables.users in
    elim (Option-cases (c.world c.tick).fault) [
      | inr failed ↦ inl (ground arith)
      | inl quiet ↦ elim (Bool-cases (is_admin_user (scan_user o))) [
        | inl admin ↦ inl (ground arith)
        | inr free ↦ elim (Option-cases (c.world (c.tick + 1)).fault) [
          | inl quiet' ↦
              inr (
                λ u found a. not_admin o u free found a,
                ((c.world (c.tick + 1)).now, ground arith),
              )
          | inr failed ↦ inl (ground arith)
        ]
      ]
    ]

pub either_tables : (P : Tables → Type 0) {t a b : Tables} → (t ≡ a) ⊎ (t ≡ b) → P a → P b → P t
either_tables P (inl e) p q = subst P (sym e) p
either_tables P (inr e) p q = subst P (sym e) q
