-- ===== src/Auth/Rbac.antt =====
-- internal/auth/rbac.go: the decision whether a principal may act on a resource.
pub mod Laws
pub mod Open
pub mod Decision
use tinydm.Prelude.{String, Bool, true, false, not, ◌&&◌, List, [], ◌∷◌, ◌==◌, if◌then◌else◌}
use tinydm.Auth.{Principal, is_admin}

abbrev pub PermMode : Type 0
PermMode = String

abbrev pub perm_mode_explicit : PermMode
perm_mode_explicit = "explicit"

abbrev pub perm_mode_open : PermMode
perm_mode_open = "open"

abbrev pub Action : Type 0
Action = String

abbrev pub action_create : Action
action_create = "create"

abbrev pub action_read : Action
action_read = "read"

abbrev pub action_update : Action
action_update = "update"

abbrev pub action_delete : Action
action_delete = "delete"

abbrev pub ResourceType : Type 0
ResourceType = String

abbrev pub resource_project : ResourceType
resource_project = "project"

abbrev pub resource_bucket : ResourceType
resource_bucket = "bucket"

abbrev pub resource_document : ResourceType
resource_document = "document"

pub record ResourceAncestor : Type 0 where
  pub type : ResourceType
  pub id : String

-- `Right` of internal/auth/store.go
pub record Right : Type 0 where
  pub principal_type : String
  pub principal_id : String
  pub resource_type : String
  pub resource_id : String
  pub can_create : Bool
  pub can_read : Bool
  pub can_update : Bool
  pub can_delete : Bool

unfoldable pub right_grants_action : Right → Action → Bool
right_grants_action r action =
    if action == action_create
    then r.can_create
    else if action == action_read
    then r.can_read
    else if action == action_update
    then r.can_update
    else if action == action_delete
    then r.can_delete
    else false

-- The loop of `canOpen`: the first row for the resource decides.
unfoldable pub can_open : List Right → Action → ResourceType → String → Bool
can_open [] action resource_type resource_id = true
can_open (r ∷ rights) action resource_type resource_id =
    let continue = can_open rights action resource_type resource_id in
    if not (r.resource_type == resource_type)
    then continue
    else if not (r.resource_id == resource_id) && not (r.resource_id == "*")
    then continue
    else right_grants_action r action

-- The loop of `checkRights`: any row for the resource that grants the action is enough.
unfoldable pub check_rights : List Right → Action → ResourceType → String → Bool
check_rights [] action resource_type resource_id = false
check_rights (r ∷ rights) action resource_type resource_id =
    let continue = check_rights rights action resource_type resource_id in
    if not (r.resource_type == resource_type)
    then continue
    else if not (r.resource_id == resource_id) && not (r.resource_id == "*")
    then continue
    else if right_grants_action r action
    then true
    else continue

-- `Can`; the ancestors are taken and not read, as in the source.
unfoldable pub can :
    Principal
    → List Right
    → PermMode
    → Action
    → ResourceType
    → String
    → List ResourceAncestor
    → Bool
can p rights mode action resource_type resource_id ancestors =
    if is_admin p
    then true
    else if mode == perm_mode_open
    then can_open rights action resource_type resource_id
    else check_rights rights action resource_type resource_id
