-- ===== src/Sql/Quiet.antt =====
-- What runs where the driver does not fail.
use tinydm.Prelude.{◌⊎◌, inl, inr, refl, arith, String, ℕ, ◌+◌, ◌≡◌, none}
use tinydm.Sql.{Error, err, statement, Result, Engine, ok, Conn, Exec, transaction, finish}

-- No statement fails in the driver.
abbrev pub Quiet : {T : Type 0} → Conn T → Type 0
Quiet c = (n : ℕ) → (c.world n).fault ≡ none

abbrev pub ticked : {T : Type 0} → Conn T → Conn T
ticked c = record c { tick = c.tick + 1 }

module _ {T A : Type 0} (c : Conn T) where
  pub transaction_quiet :
      (body : Exec T A) (a : A) (c' : Conn T)
      → (c.world c.tick).fault ≡ none
      → body (ticked c) ≡ (ok a, c')
      → (c'.world c'.tick).fault ≡ none
      → transaction body c ≡ (ok a, ticked c')
  unfolding transaction finish
  transaction_quiet body a c' q e q' = rw (q, transaction) (rw e (rw (q', finish)))

  pub statement_quiet :
      (f : Engine → String → T → Result A × T)
      → (c.world c.tick).fault ≡ none
      → statement f c ≡ (
        (f c.engine (c.world c.tick).now c.tables).0,
        record c { tables = (f c.engine (c.world c.tick).now c.tables).1; tick = c.tick + 1 },
      )
  statement_quiet f q = ground arith

pub Result-cases :
    {A : Type 0} (r : Result A) → ((a : A) × (r ≡ ok a)) ⊎ ((e : Error) × (r ≡ err e))
Result-cases (ok a) = inl (a, refl)
Result-cases (err e) = inr (e, refl)

pub kept_world : {T : Type 0} (c c' : Conn T) → Quiet c → c'.world ≡ c.world → Quiet c'
kept_world c c' q e = rw e q
