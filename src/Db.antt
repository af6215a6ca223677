-- ===== src/Db.antt =====
-- internal/db/db.go: the placeholders of a query, and how a database is opened and migrated.
pub mod Laws
use Prim.Native.Char.{code}
use Prim.Native.String.{◌++◌}
use tinydm.Prelude.{ℕ, ◌+◌, String, Bool, true, false, List, [], ◌∷◌, eqb, if◌then◌else◌, ◌==◌}
use tinydm.Prelude.Int.{pos}
use tinydm.Strconv.{itoa}
use tinydm.Sql.{Error, Result, ok, err, plain, wrap}
use tinydm.Repo.{quoted}

-- questionRe.ReplaceAllStringFunc, where `n` placeholders came before
unfoldable pub numbered : ℕ → String → String
numbered n String.[] = ""
numbered n (String.◌∷◌ c query) =
    let next = numbered (n + 1) query in
    let same = numbered n query in
    if eqb (code c) b'?' then "$" ++ (itoa (pos (n + 1)) ++ next) else String.◌∷◌ c same

-- `rebind`
unfoldable pub rebind : String → String → String
rebind driver query = if driver == "postgres" then numbered 0 query else query

-- What the library database/sql and the migrations of goose do: `Open`, the execution of a statement,
-- `SetDialect` and `Up`.
pub record Library : Type 0 where
  pub sql_open : String → String → Result (Unit {0})
  pub exec : String → Result (Unit {0})
  pub set_dialect : String → Result (Unit {0})
  pub up : String → Result (Unit {0})

abbrev pragmas : List String
pragmas =
    "PRAGMA journal_mode=WAL" ∷ "PRAGMA foreign_keys=ON" ∷ "PRAGMA busy_timeout=5000"
    ∷ "PRAGMA synchronous=NORMAL" ∷ []

module _ (l : Library) where
  unfoldable set_pragmas : List String → Result (Unit {0})
  set_pragmas [] = ok tt
  set_pragmas (p ∷ ps) = elim (l.exec p) [
    | err e ↦ err (wrap ("set pragma " ++ quoted p) e)
    | ok _ ↦ set_pragmas ps
  ]

  -- The driver of the opened database.
  abbrev opened : String → Result (Unit {0}) → Result String
  opened driver (err e) = err (wrap "open database" e)
  opened driver (ok _) =
      if driver == "sqlite"
      then elim (set_pragmas pragmas) [ err e ↦ err e | ok _ ↦ ok driver ]
      else ok driver

  -- `Open`
  unfoldable open_db : String → String → Result String
  open_db driver dsn =
      if driver == "sqlite"
      then opened driver (l.sql_open "sqlite" dsn)
      else if driver == "postgres"
      then opened driver (l.sql_open "pgx" dsn)
      else err (plain ("unknown database driver " ++ (quoted driver ++ ": use sqlite or postgres")))

  abbrev migrated : String → String → Result (Unit {0})
  migrated dialect dir = elim (l.set_dialect dialect) [
    | err e ↦ err (wrap "set dialect" e)
    | ok _ ↦ elim (l.up dir) [ err e ↦ err (wrap "run migrations" e) | ok _ ↦ ok tt ]
  ]

  -- `Migrate`
  unfoldable migrate : String → Result (Unit {0})
  migrate driver =
      if driver == "sqlite"
      then migrated "sqlite3" "migrations"
      else if driver == "postgres"
      then migrated "postgres" "migrations_pg"
      else err (plain ("unknown driver " ++ quoted driver))
