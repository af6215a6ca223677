-- ===== src/Tests/Db.antt =====
-- A query with two placeholders.
use Prim.Native.String.{◌++◌}
use tinydm.Prelude.{◌≡◌, refl, [], ◌∷◌, arith}
use tinydm.Strconv.{itoa, digits_onto}
use tinydm.Db.{rebind, numbered}
use tinydm.Db.Laws.{with_marks, with_numbers, rebind_postgres}

rebind_postgres_example :
    rebind "postgres" ("" ++ with_marks (" = " ∷ "" ∷ [])) ≡ "" ++ with_numbers 0 (" = " ∷ "" ∷ [])
rebind_postgres_example = rebind_postgres "" (" = " ∷ "" ∷ []) tt (
  ((λ e. absurd (omega arith)), ((λ e. absurd (omega arith)), ((λ e. absurd (omega arith)), tt))),
  (tt, tt),
)

numbers : rebind "postgres" "a = ? AND b = ?" ≡ "a = $1 AND b = $2"
unfolding rebind numbered itoa digits_onto
numbers = refl
