-- ===== src/Tests/Rights.antt =====
-- Granting a right.
use tinydm.Prelude.{◌≡◌, refl, true, false, List, Memᴰ}
use tinydm.Sql.{ok}
use tinydm.Auth.Rbac.{Right, right_grants_action, check_rights, action_update}
use tinydm.Auth.Rights.{upsert_right, get_user_rights}
use tinydm.Auth.Rights.Laws.{get_user_rights-upsert_right}
use tinydm.Tests.{conn}

abbrev grant : Right
grant = record {
  principal_type = "user";
  principal_id = "ann";
  resource_type = "document";
  resource_id = "d";
  can_create = false;
  can_read = true;
  can_update = true;
  can_delete = false;
}

get_user_rights-upsert_right_example :
    (rights : List Right) × (((get_user_rights "ann" (upsert_right "r" grant conn).1).0 ≡ ok rights)
      × (Memᴰ grant rights × (check_rights rights "update" "document" "d" ≡ true)))
unfolding upsert_right right_grants_action
get_user_rights-upsert_right_example =
    get_user_rights-upsert_right "r" grant action_update conn (λ n. refl) refl refl refl
