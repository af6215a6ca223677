-- ===== src/Schema.antt =====
-- The tables that internal/db/migrations creates, with the structs of internal/repo/store.go and
-- internal/auth/store.go as their rows. A row holds the columns that the program reads.
use tinydm.Prelude.{ℕ, String, Option, List}
use tinydm.Sql.{Exec}
use tinydm.Sql.Table.{Row}

pub record Project : Type 0 where
  pub id : String
  pub name : String
  pub description : String
  pub created_at : String
  pub updated_at : String

pub record Bucket : Type 0 where
  pub id : String
  pub project_id : String
  pub name : String
  pub description : String
  pub created_at : String
  pub updated_at : String

pub record Document : Type 0 where
  pub id : String
  pub bucket_id : String
  pub name : String
  pub content_type : String
  pub size : ℕ
  pub checksum : String
  pub storage_key : String
  pub version : ℕ
  pub created_by : String
  pub created_at : String
  pub updated_at : String

pub record DocumentVersion : Type 0 where
  pub id : String
  pub document_id : String
  pub version : ℕ
  pub content_type : String
  pub size : ℕ
  pub checksum : String
  pub storage_key : String
  pub created_by : String
  pub created_at : String

-- document_tags
pub record Tag : Type 0 where
  pub document_id : String
  pub tag : String

-- document_properties
pub record Property : Type 0 where
  pub document_id : String
  pub key : String
  pub value : String

-- `is_active` is the column's number.
pub record UserRow : Type 0 where
  pub id : String
  pub username : String
  pub email : String
  pub first_name : String
  pub last_name : String
  pub password_hash : String
  pub user_type : String
  pub is_active : ℕ

pub record ApiKey : Type 0 where
  pub id : String
  pub user_id : Option String
  pub name : String
  pub key_hash : String
  pub key_prefix : String
  pub expires_at : Option ℕ
  pub revoked_at : Option String

-- A row of api_keys: what `APIKey` holds, and a column that only TouchAPIKey writes.
pub record ApiKeyRow : Type 0 where
  pub key : ApiKey
  pub last_used_at : Option String

pub record RightRow : Type 0 where
  pub id : String
  pub principal_type : String
  pub principal_id : String
  pub resource_type : String
  pub resource_id : String
  pub can_create : ℕ
  pub can_read : ℕ
  pub can_update : ℕ
  pub can_delete : ℕ

pub record GroupMember : Type 0 where
  pub group_id : String
  pub user_id : String

pub record Tables : Type 0 where
  pub projects : List (Row Project)
  pub buckets : List (Row Bucket)
  pub documents : List (Row Document)
  pub document_versions : List DocumentVersion
  pub document_tags : List Tag
  pub document_properties : List Property
  pub users : List (Row UserRow)
  pub api_keys : List ApiKeyRow
  pub rights : List RightRow
  pub group_members : List GroupMember

-- What a store's method does.
abbrev pub Store : Type 0 → Type 0
Store A = Exec Tables A
