-- ===== src/Sql/Laws.antt =====
-- Transactions are atomic.
use tinydm.Prelude.{◌+◌, ◌≡◌, refl, inl, inr, arith, Option-cases}
use tinydm.Sql.{Error, Result, ok, err, Conn, Exec, finish, transaction}

module _ {T A : Type 0} where
  finish_atomic :
      (before : T) (r : Result A) (c : Conn T) (e : Error)
      → (finish before r c).0 ≡ err e
      → (finish before r c).1.tables ≡ before
  unfolding finish
  finish_atomic before (err _) c e h = refl
  finish_atomic before (ok a) c e h = ground arith

  -- A transaction that reports an error has changed no table, whatever its body did before.
  pub transaction_atomic :
      (body : Exec T A) (c : Conn T) (e : Error)
      → (transaction body c).0 ≡ err e
      → (transaction body c).1.tables ≡ c.tables
  unfolding transaction
  transaction_atomic body c e h = elim (Option-cases (c.world c.tick).fault) [
    | inl quiet ↦
        let c' = record c { tick = c.tick + 1 } in
        ground (arith, finish_atomic c.tables (body c').0 (body c').1 e)
    | inr f ↦ ground arith
  ]
