-- ===== src/Repo/Buckets.antt =====
-- internal/repo/store.go: buckets.
use tinydm.Prelude.{ℕ, String, ◌&&◌, not, Option, List, length, if◌then◌else◌, ◌==◌}
use tinydm.Sql.{
  Engine, Result, ok, err, driver, wrap, pure, on_error, statement, query, exec, ◌>>=◌, ◌>>◌,
}
use tinydm.Sql.Table.{select, update_live, mark_deleted, insert, any_row, update_clashes}
use tinydm.Sql.Table.Find.{find}
use tinydm.Schema.{Bucket, Tables, Store}
use tinydm.Repo.{PageOpts, validated, order_by, paged, wrap_constraint}

-- `GetBucket`, with `scanBucket`
unfoldable pub get_bucket : String → Store (Option Bucket)
get_bucket id = on_error (wrap "scan bucket") (query (λ _ t. find (λ b. b.id) id t.buckets))

-- The INSERT of `CreateBucket`: `id` is the primary key, `project_id` and `name` are UNIQUE together,
-- also among deleted rows, and the project is a row, deleted or not.
abbrev insert_bucket :
    String → String → String → String → Engine → String → Tables → Result (Unit {0}) × Tables
insert_bucket id project_id name description engine now t =
    if any_row (λ b. b.id == id) t.buckets
    then (err (driver (engine.unique_violation "buckets.id")), t)
    else if any_row (λ b. b.project_id == project_id && b.name == name) t.buckets
    then (err (driver (engine.unique_violation "buckets.project_id, buckets.name")), t)
    else if not (any_row (λ p. p.id == project_id) t.projects)
    then (err (driver (engine.foreign_key_violation "buckets.project_id")), t)
    else (
      ok tt,
      record t {
        buckets =
            insert
              (record {
                id = id;
                project_id = project_id;
                name = name;
                description = description;
                created_at = now;
                updated_at = now;
              })
              t.buckets;
      },
    )

-- `CreateBucket`; the new identifier is the argument `id`.
unfoldable pub create_bucket : String → String → String → String → Store (Option Bucket)
unfolding get_bucket
create_bucket id project_id name description = do
  on_error (wrap_constraint "bucket" name)
      (statement (insert_bucket id project_id name description))
  get_bucket id

-- `ListBuckets`
unfoldable pub list_buckets : String → PageOpts → Store (List Bucket × ℕ)
list_buckets project_id opts = do
  let page = validated opts
  total ←
      on_error (wrap "count buckets")
        (query (λ _ t. length (select (λ b. b.project_id == project_id) t.buckets)))
  rows ← on_error (wrap "list buckets") (
      query (λ engine t. paged page (
        order_by (λ b c. engine.text_le b.name c.name)
          (select (λ b. b.project_id == project_id) t.buckets))))
  pure (rows, total)

abbrev rename_bucket : String → String → String → Bucket → Bucket
rename_bucket name description now b = record b {
  name = name;
  description = description;
  updated_at = now;
}

-- The UPDATE of `UpdateBucket`
abbrev set_bucket : String → String → String → Engine → String → Tables → Result (Unit {0}) × Tables
set_bucket id name description engine now t =
    let f = rename_bucket name description now in
    if update_clashes (λ b. b.id == id) f (λ b c. b.project_id == c.project_id && b.name == c.name)
      t.buckets
    then (err (driver (engine.unique_violation "buckets.project_id, buckets.name")), t)
    else (ok tt, record t { buckets = update_live (λ b. b.id == id) f t.buckets })

-- `UpdateBucket`
unfoldable pub update_bucket : String → String → String → Store (Option Bucket)
unfolding get_bucket
update_bucket id name description = do
  on_error (wrap_constraint "bucket" name) (statement (set_bucket id name description))
  get_bucket id

-- `DeleteBucket`
unfoldable pub delete_bucket : String → Store (Unit {0})
delete_bucket id =
    exec (λ _ now t. record t { buckets = mark_deleted (λ b. b.id == id) now t.buckets })
