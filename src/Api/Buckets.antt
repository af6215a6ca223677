-- ===== src/Api/Buckets.antt =====
-- internal/api/buckets.go
pub mod Laws
use tinydm.Prelude.{String, Option, none, some, if◌then◌else◌, ◌==◌}
use tinydm.Repo.Buckets.{list_buckets, create_bucket, update_bucket, delete_bucket}
use tinydm.Api.{
  json, error_body, no_content, one_bucket, buckets, Handler, page_params, paged_meta, with_value,
  conflict_or_internal, answer, internal,
}

-- `BucketHandler.List`
unfoldable pub list : Handler
list r c =
    let page = page_params r in
    with_value r.project
      (λ project c.
        answer internal
          (λ found. json 200 (buckets found.0 (paged_meta found.1 page.limit page.offset)))
          (list_buckets project.id page c))
      c

-- `BucketHandler.Create`; `id` is the new identifier, the body has a name and a description.
unfoldable pub create : String → Option (String × String) → Handler
create id none r c = (error_body 400 "invalid request body", c)
create id (some (name, description)) r c =
    if name == ""
    then (error_body 400 "name is required", c)
    else with_value r.project
        (λ project c.
          answer conflict_or_internal (λ bucket. json 201 (one_bucket bucket))
            (create_bucket id project.id name description c))
        c

-- `BucketHandler.Get`
unfoldable pub get : Handler
get r c = (json 200 (one_bucket r.bucket), c)

-- `BucketHandler.Update`
unfoldable pub update : Option (String × String) → Handler
update none r c = (error_body 400 "invalid request body", c)
update (some (name, description)) r c =
    with_value r.bucket
      (λ bucket c.
        answer conflict_or_internal (λ updated. json 200 (one_bucket updated))
          (update_bucket bucket.id (if name == "" then bucket.name else name) description c))
      c

-- `BucketHandler.Delete`
unfoldable pub delete : Handler
delete r c =
    with_value r.bucket (λ bucket c. answer internal (λ _. no_content) (delete_bucket bucket.id c))
      c
