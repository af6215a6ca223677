-- ===== src/Repo.antt =====
-- internal/repo/store.go: pagination, and the errors of a violated constraint. The children model
-- the store's methods.
pub mod Pages
pub mod Projects
pub mod Buckets
pub mod Documents
pub mod Versions
pub mod Tags
pub mod Properties
use Prim.Native.String.{◌++◌}
use tinydm.Prelude.{
  ℕ, String, Bool, true, ◌||◌, List, [], ◌∷◌, take, drop, if◌then◌else◌, ◌==◌, eqb, ◌&&◌,
}
use tinydm.Prelude.Int.{ℤ, pos, pos_part, ltb_ℤ, leb_ℤ}
use tinydm.Sql.{Error, conflict, error_text}
use tinydm.Sql.Like.{codes}

abbrev pub default_page_limit : ℤ
default_page_limit = pos 50

abbrev pub max_page_limit : ℤ
max_page_limit = pos 500

pub record PageOpts : Type 0 where
  pub limit : ℤ
  pub offset : ℤ

abbrev clamp_limit : ℤ → ℤ
clamp_limit limit =
    let defaulted = if leb_ℤ limit (pos 0) then default_page_limit else limit in
    if ltb_ℤ max_page_limit defaulted then max_page_limit else defaulted

-- `PageOpts.validated`
unfoldable pub validated : PageOpts → PageOpts
validated p = record {
  limit = clamp_limit p.limit;
  offset = if ltb_ℤ p.offset (pos 0) then pos 0 else p.offset;
}

module _ {A : Type 0} (le : A → A → Bool) where
  insert_sorted : A → List A → List A
  insert_sorted a [] = a ∷ []
  insert_sorted a (b ∷ rows) =
      let later = b ∷ insert_sorted a rows in if le a b then a ∷ b ∷ rows else later

  -- ORDER BY
  unfoldable pub order_by : List A → List A
  unfolding insert_sorted
  order_by [] = []
  order_by (a ∷ rows) = insert_sorted a (order_by rows)

-- LIMIT ? OFFSET ?
abbrev pub paged : {A : Type 0} → PageOpts → List A → List A
paged page rows = take (pos_part page.limit) (drop (pos_part page.offset) rows)

-- `strings.Contains`, over the code points
is_prefix : List ℕ → List ℕ → Bool
is_prefix [] text = true
is_prefix (c ∷ part) [] = Bool.false
is_prefix (c ∷ part) (x ∷ text) = eqb c x && is_prefix part text

contains_codes : List ℕ → List ℕ → Bool
contains_codes [] part = is_prefix part []
contains_codes (x ∷ text) part = is_prefix part (x ∷ text) || contains_codes text part

unfoldable pub contains : String → String → Bool
unfolding contains_codes is_prefix
contains text part = contains_codes (codes text) (codes part)

-- `%q`, for texts with nothing to escape
abbrev pub quoted : String → String
quoted s = "\"" ++ (s ++ "\"")

-- `wrapConstraint`
unfoldable pub wrap_constraint : String → String → Error → Error
wrap_constraint resource name e =
    if contains (error_text e) "UNIQUE constraint failed"
    then conflict (resource ++ (" " ++ (quoted name ++ " already exists")))
    else e
