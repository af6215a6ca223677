-- ===== src/Sql/Table.antt =====
-- Tables as lists of rows in the order of insertion, and the forms of statement that the stores use.
pub mod Find
use tinydm.Prelude.{
  String, Bool, true, false, not, ◌&&◌, Option, none, some, List, [], ◌∷◌, ◌++◌, map, any,
  if◌then◌else◌,
}

-- A row with the column `deleted_at`.
pub record Row (A : Type 0) : Type 0 where
  pub value : A
  pub deleted_at : Option String

module _ {A : Type 0} where
  abbrev is_live : Row A → Bool
  is_live r = elim r.deleted_at [ none ↦ true | some _ ↦ false ]

  abbrev pub matches : (A → Bool) → Row A → Bool
  matches p r = p r.value && is_live r

  -- SELECT … WHERE p AND deleted_at IS NULL
  unfoldable pub select : (A → Bool) → List (Row A) → List A
  select p [] = []
  select p (r ∷ rows) = let rest = select p rows in if matches p r then r.value ∷ rest else rest

  -- The same, of a table with no such column.
  unfoldable pub select_all : (A → Bool) → List A → List A
  select_all p [] = []
  select_all p (a ∷ rows) = let rest = select_all p rows in if p a then a ∷ rest else rest

  -- UPDATE … SET f WHERE p AND deleted_at IS NULL
  unfoldable pub update_live : (A → Bool) → (A → A) → List (Row A) → List (Row A)
  update_live p f =
      map (λ r. if matches p r then record { value = f r.value; deleted_at = r.deleted_at } else r)

  -- UPDATE … SET deleted_at = now WHERE p
  unfoldable pub mark_deleted : (A → Bool) → String → List (Row A) → List (Row A)
  mark_deleted p now =
      map (λ r. if p r.value then record { value = r.value; deleted_at = some now } else r)

  -- UPDATE … SET deleted_at = now WHERE p AND deleted_at IS NULL
  unfoldable pub mark_live_deleted : (A → Bool) → String → List (Row A) → List (Row A)
  mark_live_deleted p now =
      map (λ r. if matches p r then record { value = r.value; deleted_at = some now } else r)

  -- UPDATE … SET f WHERE p, of a table with no such column
  unfoldable pub update_all : (A → Bool) → (A → A) → List A → List A
  update_all p f = map (λ a. if p a then f a else a)

  -- DELETE … WHERE p
  unfoldable pub delete_rows : (A → Bool) → List A → List A
  delete_rows p [] = []
  delete_rows p (a ∷ rows) = let rest = delete_rows p rows in if p a then rest else a ∷ rest

  -- INSERT of a row that is not deleted
  abbrev pub insert : A → List (Row A) → List (Row A)
  insert a rows = rows ++ record { value = a; deleted_at = none } ∷ []

  -- A row, deleted or not, has p: what UNIQUE and REFERENCES look at.
  abbrev pub any_row : (A → Bool) → List (Row A) → Bool
  any_row p = any (λ r. p r.value)

  -- An UPDATE … SET f WHERE p AND deleted_at IS NULL would give a row the unique columns of another
  -- row, deleted or not.
  unfoldable pub update_clashes : (A → Bool) → (A → A) → (A → A → Bool) → List (Row A) → Bool
  update_clashes p f same_columns rows =
      any (λ r. matches p r && any_row (λ b. not (p b) && same_columns (f r.value) b) rows) rows
