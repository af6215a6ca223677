-- ===== src/Sql.antt =====
-- What the stores see of database/sql and of internal/db/db.go: statements that run one after the
-- other on a connection, each of which can fail in the driver, and transactions.
-- The world outside the program is the connection's `world`: for each statement, by its number,
-- whether the driver fails there and with what message, and the time that CURRENT_TIMESTAMP gives.
pub mod Table
pub mod Laws
pub mod Like
pub mod Quiet
use Prim.Native.String.{◌++◌}
use tinydm.Prelude.{ℕ, ◌+◌, String, Bool, true, false, Option, none, some}

-- Go's `error` values: what the driver reports, `fmt.Errorf` without and with `%w`, and
-- `*repo.ErrConflict`.
pub data Error : Type 0 where
  driver : String → Error
  plain : String → Error
  wrap : String → Error → Error
  conflict : String → Error

-- `Error()`
unfoldable pub error_text : Error → String
error_text (driver m) = m
error_text (plain m) = m
error_text (wrap context e) = context ++ (": " ++ error_text e)
error_text (conflict m) = m

pub data Result {ℓ} (A : Type ℓ) : Type ℓ where
  ok : A → Result A
  err : Error → Result A

pub record Moment : Type 0 where
  pub fault : Option String
  pub now : String

-- The database engine: which of the two it is, and its messages for a violated constraint, by the
-- table and the columns, and the order of its texts.
pub record Engine : Type 0 where
  pub postgres : Bool
  pub unique_violation : String → String
  pub foreign_key_violation : String → String
  pub check_violation : String → String
  pub text_le : String → String → Bool

pub record Conn (T : Type 0) : Type 0 where
  pub tables : T
  pub engine : Engine
  pub world : ℕ → Moment
  pub tick : ℕ

abbrev pub Exec : Type 0 → Type 0 → Type 0
Exec T A = Conn T → Result A × Conn T

module _ {T A : Type 0} where
  abbrev pub pure : A → Exec T A
  pure a c = (ok a, c)

  abbrev pub raise : Error → Exec T A
  raise e c = (err e, c)

  abbrev raise_wrapped : String → Error → Exec T A
  raise_wrapped context e c = (err (wrap context e), c)

module _ {T A B : Type 0} where
  abbrev pub continue : Result A → (A → Exec T B) → Exec T B
  continue (ok a) f c = f a c
  continue (err e) f c = (err e, c)

  infixl 5 ◌>>=◌
  abbrev pub ◌>>=◌ : Exec T A → (A → Exec T B) → Exec T B
  ◌>>=◌ m f c = let (r, c') = m c in continue r f c'

infixl 5 ◌>>◌
abbrev pub ◌>>◌ : {T B : Type 0} → Exec T (Unit {0}) → Exec T B → Exec T B
m >> k = m >>= λ _. k

module _ {A : Type 0} where
  abbrev pub rename : (Error → Error) → Result A → Result A
  rename f (ok a) = ok a
  rename f (err e) = err (f e)

  abbrev found_or : Error → Result (Option A) → Result A
  found_or e (ok (some a)) = ok a
  found_or e _ = err e

module _ {T A : Type 0} where
  -- `if err != nil || x == nil { return e }`
  abbrev pub require : Error → Exec T (Option A) → Exec T A
  require e m c = let (r, c') = m c in (found_or e r, c')

  -- `if err != nil { return f(err) }`
  abbrev pub on_error : (Error → Error) → Exec T A → Exec T A
  on_error f m c = let (r, c') = m c in (rename f r, c')

  -- One statement. It fails in the driver, or runs on the tables; it may then still be refused, by a
  -- constraint, and leaves the tables alone.
  abbrev pub statement : (Engine → String → T → Result A × T) → Exec T A
  statement f c = elim (c.world c.tick).fault [
    | some message ↦ (err (driver message), record c { tick = c.tick + 1 })
    | none ↦
        let (r, t) = f c.engine (c.world c.tick).now c.tables in
        (r, record c { tables = t; tick = c.tick + 1 })
  ]

  -- `QueryContext`, `QueryRowContext`
  abbrev pub query : (Engine → T → A) → Exec T A
  query f = statement (λ engine now t. (ok (f engine t), t))

-- `ExecContext`, where no constraint can be violated
abbrev pub exec : {T : Type 0} → (Engine → String → T → T) → Exec T (Unit {0})
exec f = statement (λ engine now t. (ok tt, f engine now t))

module _ {T A : Type 0} where
  -- The end of a transaction that began on the tables `before`: `Commit`, or the deferred `Rollback`.
  finish : T → Result A → Exec T A
  finish before (err e) c = (err e, record c { tables = before })
  finish before (ok a) c = elim (c.world c.tick).fault [
    | some message ↦ (err (driver message), record c { tables = before; tick = c.tick + 1 })
    | none ↦ (ok a, record c { tick = c.tick + 1 })
  ]

  -- `BeginTx`, the body, and the end.
  unfoldable pub transaction : Exec T A → Exec T A
  unfolding finish
  transaction body c = elim (c.world c.tick).fault [
    | some message ↦ (err (driver message), record c { tick = c.tick + 1 })
    | none ↦ let (r, c') = body (record c { tick = c.tick + 1 }) in finish c.tables r c'
  ]
