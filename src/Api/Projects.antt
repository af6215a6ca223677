-- ===== src/Api/Projects.antt =====
-- internal/api/projects.go
use tinydm.Prelude.{String, Option, none, some, if◌then◌else◌, ◌==◌}
use tinydm.Repo.Projects.{list_projects, create_project, update_project, delete_project}
use tinydm.Api.{
  json, error_body, no_content, one_project, projects, Handler, page_params, paged_meta, with_value,
  conflict_or_internal, answer, internal,
}

-- `ProjectHandler.List`
unfoldable pub list : Handler
list r c =
    let page = page_params r in
    answer internal
      (λ found. json 200 (projects found.0 (paged_meta found.1 page.limit page.offset)))
      (list_projects page c)

-- `ProjectHandler.Create`; `id` is the new identifier, the body has a name and a description.
unfoldable pub create : String → Option (String × String) → Handler
create id none r c = (error_body 400 "invalid request body", c)
create id (some (name, description)) r c =
    if name == ""
    then (error_body 400 "name is required", c)
    else answer conflict_or_internal (λ project. json 201 (one_project project))
        (create_project id name description c)

-- `ProjectHandler.Get`
unfoldable pub get : Handler
get r c = (json 200 (one_project r.project), c)

-- `ProjectHandler.Update`
unfoldable pub update : Option (String × String) → Handler
update none r c = (error_body 400 "invalid request body", c)
update (some (name, description)) r c =
    with_value r.project
      (λ project c.
        answer conflict_or_internal (λ updated. json 200 (one_project updated))
          (update_project project.id (if name == "" then project.name else name) description c))
      c

-- `ProjectHandler.Delete`
unfoldable pub delete : Handler
delete r c =
    with_value r.project
      (λ project c. answer internal (λ _. no_content) (delete_project project.id c)) c
