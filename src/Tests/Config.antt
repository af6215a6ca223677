-- ===== src/Tests/Config.antt =====
-- Environments.
use tinydm.Prelude.{String, ◌≡◌, ◌↔◌, if◌then◌else◌, ◌==◌}
use tinydm.Sql.{Result, ok}
use tinydm.Config.{load, read_config}
use tinydm.Config.Laws.{Complete, load_iff}

abbrev getenv : String → String
getenv key = if key == "TINYDM_JWT_SECRET" then "s3cret" else ""

abbrev hostname : Result String
hostname = ok "node-1"

load_example : (load getenv hostname ≡ ok (read_config getenv hostname)) ↔ (
    Complete (read_config getenv hostname)
    × (read_config getenv hostname ≡ read_config getenv hostname))
load_example = load_iff getenv hostname (read_config getenv hostname)
