-- ===== src/Config.antt =====
-- internal/config/config.go. `getenv` is os.Getenv and `hostname` os.Hostname.
pub mod Laws
use Prim.Native.String.{◌++◌}
use tinydm.Prelude.{ℕ, String, Bool, true, false, not, ◌&&◌, ◌||◌, List, if◌then◌else◌, ◌==◌}
use tinydm.Prelude.Int.{ℤ, pos}
use tinydm.Sql.{Result, ok, err, plain}
use tinydm.Repo.{quoted}
use tinydm.Strconv.{Parsed, parse_int}

pub record Config : Type 0 where
  pub host : String
  pub port : ℤ
  pub node_id : String
  pub db_driver : String
  pub db_path : String
  pub db_dsn : String
  pub storage_backend : String
  pub storage_path : String
  pub s3_bucket : String
  pub s3_endpoint : String
  pub s3_region : String
  pub s3_key_id : String
  pub s3_secret : String
  pub azure_account : String
  pub azure_key : String
  pub azure_container : String
  pub azure_endpoint : String
  pub gcs_bucket : String
  pub gcs_project : String
  pub gcs_credentials_file : String
  pub jwt_secret : String
  pub jwt_expiry_minutes : ℤ
  pub secure_cookies : Bool
  pub perm_mode : String
  pub bootstrap_admin_user : String
  pub bootstrap_admin_email : String
  pub bootstrap_admin_pass : String

module _ (getenv : String → String) (hostname : Result String) where
  unfoldable pub get_env : String → String → String
  get_env key fallback = if not (getenv key == "") then getenv key else fallback

  unfoldable pub get_env_int : String → ℤ → ℤ
  get_env_int key fallback =
      if not (getenv key == "")
      then (if (parse_int (getenv key)).valid then (parse_int (getenv key)).value else fallback)
      else fallback

  unfoldable pub get_env_bool : String → Bool → Bool
  get_env_bool key fallback =
      let v = getenv key in
      if v == "true" || (v == "1" || v == "yes")
      then true
      else if v == "false" || (v == "0" || v == "no")
      then false
      else fallback

  -- `getNodeID`
  unfoldable pub get_node_id : String
  get_node_id =
      if not (getenv "TINYDM_NODE_ID" == "")
      then getenv "TINYDM_NODE_ID"
      else elim hostname [ ok h ↦ h | err e ↦ "unknown" ]

  -- The struct that `Load` fills
  unfoldable pub read_config : Config
  read_config = record {
    host = get_env "TINYDM_HOST" "0.0.0.0";
    port = get_env_int "TINYDM_PORT" (pos 8080);
    node_id = get_node_id;
    db_driver = get_env "TINYDM_DB_DRIVER" "sqlite";
    db_path = get_env "TINYDM_DB_PATH" "tinydm.db";
    db_dsn = get_env "TINYDM_DB_DSN" "";
    storage_backend = get_env "TINYDM_STORAGE_BACKEND" "local";
    storage_path = get_env "TINYDM_STORAGE_PATH" "data/content";
    s3_bucket = get_env "TINYDM_S3_BUCKET" "";
    s3_endpoint = get_env "TINYDM_S3_ENDPOINT" "";
    s3_region = get_env "TINYDM_S3_REGION" "us-east-1";
    s3_key_id = get_env "TINYDM_S3_KEY_ID" "";
    s3_secret = get_env "TINYDM_S3_SECRET" "";
    azure_account = get_env "TINYDM_AZURE_ACCOUNT" "";
    azure_key = get_env "TINYDM_AZURE_KEY" "";
    azure_container = get_env "TINYDM_AZURE_CONTAINER" "";
    azure_endpoint = get_env "TINYDM_AZURE_ENDPOINT" "";
    gcs_bucket = get_env "TINYDM_GCS_BUCKET" "";
    gcs_project = get_env "TINYDM_GCS_PROJECT" "";
    gcs_credentials_file = get_env "TINYDM_GCS_CREDENTIALS_FILE" "";
    jwt_secret = get_env "TINYDM_JWT_SECRET" "";
    jwt_expiry_minutes = get_env_int "TINYDM_JWT_EXPIRY_MINUTES" (pos 60);
    secure_cookies = get_env_bool "TINYDM_SECURE_COOKIES" false;
    perm_mode = get_env "TINYDM_PERM_MODE" "open";
    bootstrap_admin_user = get_env "TINYDM_BOOTSTRAP_ADMIN_USER" "admin";
    bootstrap_admin_email = get_env "TINYDM_BOOTSTRAP_ADMIN_EMAIL" "";
    bootstrap_admin_pass = get_env "TINYDM_BOOTSTRAP_ADMIN_PASS" "";
  }

abbrev is_backend : String → Bool
is_backend s = s == "local" || (s == "s3" || (s == "azure" || s == "gcs"))

-- The checks of the storage backends
unfoldable pub check_backend : Config → Result Config
check_backend cfg =
    if not (is_backend cfg.storage_backend)
    then err (
        plain (
          "TINYDM_STORAGE_BACKEND must be one of local, s3, azure, gcs; got "
          ++ quoted cfg.storage_backend))
    else if cfg.storage_backend == "s3"
    then (if cfg.s3_bucket == ""
        then err (plain "TINYDM_S3_BUCKET must be set when TINYDM_STORAGE_BACKEND=s3")
        else if cfg.s3_key_id == "" || cfg.s3_secret == ""
        then err (
            plain
              "TINYDM_S3_KEY_ID and TINYDM_S3_SECRET must be set when TINYDM_STORAGE_BACKEND=s3")
        else ok cfg)
    else if cfg.storage_backend == "azure"
    then (if cfg.azure_account == ""
        then err (plain "TINYDM_AZURE_ACCOUNT must be set when TINYDM_STORAGE_BACKEND=azure")
        else if cfg.azure_key == ""
        then err (plain "TINYDM_AZURE_KEY must be set when TINYDM_STORAGE_BACKEND=azure")
        else if cfg.azure_container == ""
        then err (plain "TINYDM_AZURE_CONTAINER must be set when TINYDM_STORAGE_BACKEND=azure")
        else ok cfg)
    else if cfg.storage_backend == "gcs" && cfg.gcs_bucket == ""
    then err (plain "TINYDM_GCS_BUCKET must be set when TINYDM_STORAGE_BACKEND=gcs")
    else ok cfg

-- The checks of `Load`
unfoldable pub check : Config → Result Config
check cfg =
    if cfg.jwt_secret == ""
    then err (plain "TINYDM_JWT_SECRET must be set")
    else if not (cfg.perm_mode == "explicit") && not (cfg.perm_mode == "open")
    then err (plain ("TINYDM_PERM_MODE must be explicit or open, got " ++ quoted cfg.perm_mode))
    else if not (cfg.db_driver == "sqlite") && not (cfg.db_driver == "postgres")
    then err (plain ("TINYDM_DB_DRIVER must be sqlite or postgres, got " ++ quoted cfg.db_driver))
    else if cfg.db_driver == "postgres" && cfg.db_dsn == ""
    then err (plain "TINYDM_DB_DSN must be set when TINYDM_DB_DRIVER=postgres")
    else check_backend cfg

-- `Load`
unfoldable pub load : (String → String) → Result String → Result Config
load getenv hostname = check (read_config getenv hostname)

-- `DSN`
unfoldable pub dsn : Config → String
dsn c = if c.db_driver == "postgres" then c.db_dsn else c.db_path
