-- ===== src/Sql/Like.antt =====
-- The operator LIKE: `%` stands for any text and `_` for any character. SQLite compares letters of
-- ASCII without their case, PostgreSQL with it. PostgreSQL's escape character, a backslash in the
-- pattern, is not modelled.
pub mod Laws
use Prim.Native.Char.{code}
use tinydm.Prelude.{
  ℕ, ◌+◌, String, Bool, true, false, ◌&&◌, ◌||◌, List, [], ◌∷◌, eqb, leb, if◌then◌else◌,
}
use tinydm.Sql.{Engine}

-- The code points of a text.
abbrev pub codes : String → List ℕ
codes String.[] = []
codes (String.◌∷◌ c s) = code c ∷ codes s

-- The letter as the engine compares it.
unfoldable pub fold_case : Bool → ℕ → ℕ
fold_case true c = c
fold_case false c = if leb b'A' c && leb c b'Z' then c + 32 else c

-- Some suffix of the text has the property.
abbrev some_suffix : (List ℕ → Bool) → List ℕ → Bool
some_suffix f [] = f []
some_suffix f (x ∷ xs) = f (x ∷ xs) || some_suffix f xs

abbrev one_char : Bool → ℕ → (List ℕ → Bool) → List ℕ → Bool
one_char exact c f [] = false
one_char exact c f (x ∷ xs) = (eqb c b'_' || eqb (fold_case exact x) (fold_case exact c)) && f xs

unfoldable pub like_codes : Bool → List ℕ → List ℕ → Bool
like_codes exact [] [] = true
like_codes exact [] (x ∷ xs) = false
like_codes exact (c ∷ pattern) text =
    let rest = like_codes exact pattern in
    if eqb c b'%' then some_suffix rest text else one_char exact c rest text

unfoldable pub like : Engine → String → String → Bool
like engine pattern text = like_codes engine.postgres (codes pattern) (codes text)
