-- ===== src/Sql/Like/Laws.antt =====
-- Texts with a prefix meet the pattern that is the prefix and `%`.
use Prim.Native.Char.{code}
use Prim.Native.String.{◌++◌ as ◌+++◌}
use text.Mathlib.TextEquality.{starts_with_iff}
use tinydm.Prelude.{
  ℕ, String, ◌≡◌, refl, sym, ap, ◌∙◌, Bool, true, false, List, [], ◌∷◌, ◌++◌, arith,
}
use tinydm.Prelude.Texts.{has_prefix}
use tinydm.Sql.{Engine}
use tinydm.Sql.Like.{codes, fold_case, some_suffix, like_codes, like}
use Prim.Native.String.append

codes-append : (s t : String) → codes (s +++ t) ≡ codes s ++ codes t
codes-append String.[] t = ap codes (append.nil t)
codes-append (String.◌∷◌ c s) t =
    ap codes (append.cons c s t) ∙ ap (λ l. code c ∷ l) (codes-append s t)

any_text : (exact : Bool) (text : List ℕ) → some_suffix (like_codes exact []) text ≡ true
unfolding like_codes
any_text exact [] = refl
any_text exact (x ∷ text) = ground (arith, any_text exact text)

like_sys_codes :
    (exact : Bool) (text : List ℕ) → like_codes exact (codes "sys.%") (codes "sys." ++ text) ≡ true
unfolding like_codes fold_case
like_sys_codes true text = any_text true text
like_sys_codes false text = any_text false text

-- What begins with "sys." is LIKE 'sys.%', on both engines.
pub like_sys :
    (engine : Engine) (s : String) → has_prefix s "sys." ≡ true → like engine "sys.%" s ≡ true
unfolding like
like_sys engine s h =
    let (rest, same) = (starts_with_iff s "sys.").0 h in
    ap (λ t. like_codes engine.postgres (codes "sys.%") (codes t)) (sym same)
    ∙ ap (like_codes engine.postgres (codes "sys.%")) (codes-append "sys." rest)
    ∙ like_sys_codes engine.postgres (codes rest)
