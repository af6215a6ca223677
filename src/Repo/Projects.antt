-- ===== src/Repo/Projects.antt =====
-- internal/repo/store.go: projects.
use tinydm.Prelude.{ℕ, String, true, Option, List, length, if◌then◌else◌, ◌==◌}
use tinydm.Sql.{
  Engine, Result, ok, err, driver, wrap, pure, on_error, statement, query, exec, ◌>>=◌, ◌>>◌,
}
use tinydm.Sql.Table.{select, update_live, mark_deleted, insert, any_row, update_clashes}
use tinydm.Sql.Table.Find.{find}
use tinydm.Schema.{Project, Tables, Store}
use tinydm.Repo.{PageOpts, validated, order_by, paged, wrap_constraint}

-- `GetProject`, with `scanProject`
unfoldable pub get_project : String → Store (Option Project)
get_project id = on_error (wrap "scan project") (query (λ _ t. find (λ p. p.id) id t.projects))

-- The INSERT of `CreateProject`: `id` is the primary key, and `name` is UNIQUE, also among deleted
-- rows.
abbrev insert_project :
    String → String → String → Engine → String → Tables → Result (Unit {0}) × Tables
insert_project id name description engine now t =
    if any_row (λ p. p.id == id) t.projects
    then (err (driver (engine.unique_violation "projects.id")), t)
    else if any_row (λ p. p.name == name) t.projects
    then (err (driver (engine.unique_violation "projects.name")), t)
    else (
      ok tt,
      record t {
        projects =
            insert
              (record {
                id = id;
                name = name;
                description = description;
                created_at = now;
                updated_at = now;
              })
              t.projects;
      },
    )

-- `CreateProject`; the new identifier, from package uuid, is the argument `id`.
unfoldable pub create_project : String → String → String → Store (Option Project)
unfolding get_project
create_project id name description = do
  on_error (wrap_constraint "project" name) (statement (insert_project id name description))
  get_project id

-- `ListProjects`
unfoldable pub list_projects : PageOpts → Store (List Project × ℕ)
list_projects opts = do
  let page = validated opts
  total ← on_error (wrap "count projects") (query (λ _ t. length (select (λ _. true) t.projects)))
  rows ← on_error (wrap "list projects") (
      query (λ engine t.
        paged page
          (order_by (λ p q. engine.text_le p.name q.name) (select (λ _. true) t.projects))))
  pure (rows, total)

abbrev rename_project : String → String → String → Project → Project
rename_project name description now p = record p {
  name = name;
  description = description;
  updated_at = now;
}

-- The UPDATE of `UpdateProject`
abbrev set_project :
    String → String → String → Engine → String → Tables → Result (Unit {0}) × Tables
set_project id name description engine now t =
    let f = rename_project name description now in
    if update_clashes (λ p. p.id == id) f (λ p q. p.name == q.name) t.projects
    then (err (driver (engine.unique_violation "projects.name")), t)
    else (ok tt, record t { projects = update_live (λ p. p.id == id) f t.projects })

-- `UpdateProject`
unfoldable pub update_project : String → String → String → Store (Option Project)
unfolding get_project
update_project id name description = do
  on_error (wrap_constraint "project" name) (statement (set_project id name description))
  get_project id

-- `DeleteProject`
unfoldable pub delete_project : String → Store (Unit {0})
delete_project id =
    exec (λ _ now t. record t { projects = mark_deleted (λ p. p.id == id) now t.projects })
