-- ===== src/Tests/Rbac.antt =====
-- The access decision at concrete rights.
use tinydm.Auth.Rbac.{right_grants_action, Right, can, check_rights}
use tinydm.Prelude.{String, ◌≡◌, refl, ◌↔◌, ◌⊎◌, Bool, true, false, List, [], ◌∷◌}
use tinydm.Auth.{Principal, user_type_admin}
use tinydm.Auth.Rbac.Decision.{Permits, can_iff}

abbrev right : String → Bool → Right
right resource_id read = record {
  principal_type = "user";
  principal_id = "u";
  resource_type = "bucket";
  resource_id = resource_id;
  can_create = false;
  can_read = read;
  can_update = false;
  can_delete = false;
}

abbrev rights : List Right
rights = right "b" false ∷ right "*" true ∷ []

abbrev reader : Principal
reader = record { id = "u"; username = "ann"; user_type = "user"; auth_method = "basic" }

explicit_reads : check_rights rights "read" "bucket" "b" ≡ true
unfolding check_rights right_grants_action
explicit_reads = refl

can_iff_example :
    (can reader rights "open" "read" "bucket" "b" [] ≡ true)
    ↔ ((reader.user_type ≡ user_type_admin) ⊎ Permits "open" rights "read" "bucket" "b")
can_iff_example = can_iff reader rights "open" "read" "bucket" "b" []
