-- ===== src/Audit/Store.antt =====
-- internal/audit/store.go: the table audit_log, alone on a connection.
pub mod Laws
use tinydm.Prelude.{
  ℕ, String, Bool, true, false, ◌&&◌, ◌||◌, not, Option, none, some, List, [], ◌∷◌, ◌++◌, any,
  length, if◌then◌else◌, ◌==◌,
}
use Prim.Native.String.{◌++◌ as ◌++ˢ◌}
use tinydm.Prelude.Int.{ℤ, pos, ltb_ℤ, leb_ℤ}
use tinydm.Prelude.Texts.{has_suffix, trim_suffix}
use tinydm.Sql.{
  Engine, Result, ok, err, driver, wrap, Exec, pure, on_error, statement, query, ◌>>=◌,
}
use tinydm.Sql.Like.{like}
use tinydm.Sql.Table.{select_all}
use tinydm.Repo.{PageOpts, order_by, paged}

abbrev default_limit : ℤ
default_limit = pos 50

abbrev pub max_limit : ℤ
max_limit = pos 500

pub record Event : Type 0 where
  pub id : String
  pub principal : String
  pub action : String
  pub resource : String
  pub detail : String
  pub created_at : String

abbrev Log : Type 0 → Type 0
Log A = Exec (List Event) A

abbrev insert_event :
    String
    → String
    → String
    → String
    → String
    → Engine
    → String
    → List Event
    → Result (Unit {0}) × List Event
insert_event id principal action resource detail engine now log =
    if any (λ e. e.id == id) log
    then (err (driver (engine.unique_violation "audit_log.id")), log)
    else (
      ok tt,
      log
          ++ record {
            id = id;
            principal = principal;
            action = action;
            resource = resource;
            detail = detail;
            created_at = now;
          }
            ∷ [],
    )

-- `Store.Record`; `id` is the new identifier.
unfoldable pub record_event : String → String → String → String → String → Log (Unit {0})
record_event id principal action resource detail =
    statement (insert_event id principal action resource detail)

pub record Filter : Type 0 where
  pub principal : String
  pub action : String
  pub resource : String
  pub from : String
  pub to : String
  pub limit : ℤ
  pub offset : ℤ

-- A condition of the WHERE clause
abbrev Condition : Type 0
Condition = Engine → Event → Bool

-- An empty text filters nothing.
unfoldable pub unless_empty : String → Condition → List Condition → List Condition
unless_empty text condition rest = if text == "" then rest else condition ∷ rest

unfoldable pub action_condition : String → Condition
action_condition action =
    if has_suffix action "*"
    then (λ engine e. like engine (trim_suffix action "*" ++ˢ "%") e.action)
    else (λ engine e. e.action == action)

-- The conditions that `List` joins
unfoldable pub where_clause : Filter → List Condition
where_clause f =
    unless_empty f.principal (λ engine e. e.principal == f.principal)
      (unless_empty f.action (action_condition f.action) (
        unless_empty f.resource (λ engine e. e.resource == f.resource)
          (unless_empty f.from (λ engine e. engine.text_le f.from e.created_at)
            (unless_empty f.to (λ engine e. engine.text_le e.created_at f.to) []))))

unfoldable pub holds : List Condition → Engine → Event → Bool
holds [] engine e = true
holds (condition ∷ conditions) engine e = condition engine e && holds conditions engine e

abbrev pub limit_of : ℤ → ℤ
limit_of limit = if leb_ℤ limit (pos 0) || ltb_ℤ max_limit limit then default_limit else limit

abbrev pub offset_of : ℤ → ℤ
offset_of offset = if ltb_ℤ offset (pos 0) then pos 0 else offset

-- `Store.List`: a page, the newest first, and the number of all that match
unfoldable pub list : Filter → Log (List Event × ℕ)
list f = do
  let conditions = where_clause f
  total ←
      on_error (wrap "count audit")
        (query (λ engine log. length (select_all (holds conditions engine) log)))
  rows ← on_error (wrap "list audit") (
      query (λ engine log.
        paged (record { limit = limit_of f.limit; offset = offset_of f.offset })
          (order_by (λ d e. engine.text_le e.created_at d.created_at)
            (select_all (holds conditions engine) log))))
  pure (rows, total)
