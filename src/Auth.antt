-- ===== src/Auth.antt =====
-- internal/auth/context.go: principals. The children model the rest of the package.
pub mod Rbac
pub mod Users
pub mod ApiKeys
pub mod Rights
pub mod Token
pub mod Middleware
use tinydm.Prelude.{String, Bool, ◌==◌}

-- `UserType` and `AuthMethod` are Go strings, and any string can reach them (a token's claims).
abbrev pub UserType : Type 0
UserType = String

abbrev AuthMethod : Type 0
AuthMethod = String

abbrev pub user_type_admin : UserType
user_type_admin = "admin"

abbrev pub user_type_user : UserType
user_type_user = "user"

abbrev pub auth_method_basic : AuthMethod
auth_method_basic = "basic"

abbrev pub auth_method_bearer : AuthMethod
auth_method_bearer = "bearer"

abbrev pub auth_method_api_key : AuthMethod
auth_method_api_key = "apikey"

pub record Principal : Type 0 where
  pub id : String
  pub username : String
  pub user_type : UserType
  pub auth_method : AuthMethod

-- `Principal.IsAdmin`
unfoldable pub is_admin : Principal → Bool
is_admin p = p.user_type == user_type_admin
