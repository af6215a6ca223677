-- ===== src/Tests.antt =====
-- Concrete inputs: the theorems at data that meets their hypotheses, and runs of the definitions.
mod Rbac
mod Documents
mod Tags
mod Users
mod Api
mod Handlers
mod Config
mod Rights
mod Cluster
mod Meta
mod Uploads
mod Web
mod Routes
mod Audit
mod Db
use tinydm.Prelude.{ℕ, String, Bool, true, false, none, List, [], ◌∷◌}
use tinydm.Sql.{Engine, Conn}
use tinydm.Sql.Table.{Row}
use tinydm.Schema.{Project, Bucket, Document, DocumentVersion, Tag, Property, Tables}

abbrev sqlite : Engine
sqlite = record {
  postgres = false;
  unique_violation = λ columns. "UNIQUE constraint failed";
  foreign_key_violation = λ columns. "FOREIGN KEY constraint failed";
  check_violation = λ columns. "CHECK constraint failed";
  text_le = λ s t. true;
}

abbrev bucket : Bucket
bucket = record {
  id = "b";
  project_id = "p";
  name = "inbox";
  description = "";
  created_at = "t0";
  updated_at = "t0";
}

abbrev document : String → String → Document
document id name = record {
  id = id;
  bucket_id = "b";
  name = name;
  content_type = "text/plain";
  size = 5;
  checksum = "c1";
  storage_key = "c/1";
  version = 2;
  created_by = "u";
  created_at = "t0";
  updated_at = "t1";
}

abbrev version : DocumentVersion
version = record {
  id = "v1";
  document_id = "d";
  version = 1;
  content_type = "text/csv";
  size = 3;
  checksum = "c0";
  storage_key = "c/0";
  created_by = "u";
  created_at = "t1";
}

abbrev tables : Tables
tables = record {
  projects = [];
  buckets = record { value = bucket; deleted_at = none } ∷ [];
  documents =
      record { value = document "d" "a.txt"; deleted_at = none }
      ∷ record { value = document "e" "b.txt"; deleted_at = none }
      ∷ [];
  document_versions = version ∷ [];
  document_tags = record { document_id = "d"; tag = "old" } ∷ [];
  document_properties =
      record { document_id = "d"; key = "sys.size"; value = "5" }
      ∷ record { document_id = "d"; key = "colour"; value = "red" }
      ∷ [];
  users = [];
  api_keys = [];
  rights = [];
  group_members = [];
}

-- A connection on which nothing fails.
abbrev conn : Conn Tables
conn = record {
  tables = tables;
  engine = sqlite;
  world = λ n. record { fault = none; now = "now" };
  tick = 0;
}
