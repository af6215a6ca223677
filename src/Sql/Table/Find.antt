-- ===== src/Sql/Table/Find.antt =====
-- What a query by key finds after an update, a deletion or an insertion.
use tinydm.Sql.Table.{mark_live_deleted, Row, select, update_live, mark_deleted, insert, any_row}
use tinydm.Prelude.{
  String, ◌≡◌, refl, ◌≢◌, true, false, Option, none, some, List, [], ◌∷◌, arith, ◌==◌, eq_iff,
  head?,
}

module _ {A : Type 0} where
  -- SELECT … WHERE key = k AND deleted_at IS NULL, by `QueryRow`
  abbrev pub find : (A → String) → String → List (Row A) → Option A
  find key k rows = head? (select (λ a. key a == k) rows)

module _ {A : Type 0} (key : A → String) (k : String) where
  -- The row that is found has the key.
  pub key-find : (rows : List (Row A)) (a : A) → find key k rows ≡ some a → key a ≡ k
  unfolding select
  key-find [] a h = cc
  key-find (r ∷ rows) a h = ground (arith, key-find rows a, eq_iff (key r.value) k)

  pub find-update_self :
      (f : A → A)
      → ((a : A) → key (f a) ≡ key a)
      → (rows : List (Row A)) (a : A) → find key k rows ≡ some a
      → find key k (update_live (λ a. key a == k) f rows) ≡ some (f a)
  unfolding select update_live
  find-update_self f same [] a h = cc
  find-update_self f same (r ∷ rows) a h =
      ground (arith, find-update_self f same rows a, same r.value)

  pub find-update_none :
      (f : A → A) (rows : List (Row A))
      → find key k rows ≡ none
      → find key k (update_live (λ a. key a == k) f rows) ≡ none
  unfolding select update_live
  find-update_none f [] h = refl
  find-update_none f (r ∷ rows) h = ground (arith, find-update_none f rows)

  pub find-update_ne :
      (f : A → A) (j : String)
      → ((a : A) → key (f a) ≡ key a)
      → j ≢ k
      → (rows : List (Row A)) → find key j (update_live (λ a. key a == k) f rows) ≡ find key j rows
  unfolding select update_live
  find-update_ne f j same ne [] = refl
  find-update_ne f j same ne (r ∷ rows) = ground (
    arith,
    find-update_ne f j same ne rows,
    same r.value,
    eq_iff (key r.value) k,
    eq_iff (key r.value) j,
  )

  pub find-mark_self :
      (now : String) (rows : List (Row A))
      → find key k (mark_deleted (λ a. key a == k) now rows) ≡ none
  unfolding select mark_deleted
  find-mark_self now [] = refl
  find-mark_self now (r ∷ rows) = ground (arith, find-mark_self now rows)

  pub find-mark_ne :
      (now : String) (j : String)
      → j ≢ k
      → (rows : List (Row A))
      → find key j (mark_deleted (λ a. key a == k) now rows) ≡ find key j rows
  unfolding select mark_deleted
  find-mark_ne now j ne [] = refl
  find-mark_ne now j ne (r ∷ rows) =
      ground (arith, find-mark_ne now j ne rows, eq_iff (key r.value) k, eq_iff (key r.value) j)

  pub find-insert_self :
      (a : A) (rows : List (Row A))
      → any_row (λ b. key b == k) rows ≡ false
      → key a ≡ k
      → find key k (insert a rows) ≡ some a
  unfolding select
  find-insert_self a [] h e = ground (arith, eq_iff (key a) k)
  find-insert_self a (r ∷ rows) h e = ground (arith, find-insert_self a rows)

  pub find-insert_ne :
      (a : A) (rows : List (Row A)) → key a ≢ k → find key k (insert a rows) ≡ find key k rows
  unfolding select
  find-insert_ne a [] ne = ground (arith, eq_iff (key a) k)
  find-insert_ne a (r ∷ rows) ne = ground (arith, find-insert_ne a rows)

  -- What is found is a row.
  pub any_row_of_find :
      (rows : List (Row A)) (a : A)
      → find key k rows ≡ some a
      → any_row (λ b. key b == k) rows ≡ true
  unfolding select
  any_row_of_find [] a h = cc
  any_row_of_find (r ∷ rows) a h = ground (arith, any_row_of_find rows a)

  pub find-mark_live_ne :
      (now : String) (j : String)
      → j ≢ k
      → (rows : List (Row A))
      → find key j (mark_live_deleted (λ a. key a == k) now rows) ≡ find key j rows
  unfolding select mark_live_deleted
  find-mark_live_ne now j ne [] = refl
  find-mark_live_ne now j ne (r ∷ rows) =
      ground
        (arith, find-mark_live_ne now j ne rows, eq_iff (key r.value) k, eq_iff (key r.value) j)

  pub find-mark_live_self :
      (now : String) (rows : List (Row A))
      → find key k (mark_live_deleted (λ a. key a == k) now rows) ≡ none
  unfolding select mark_live_deleted
  find-mark_live_self now [] = refl
  find-mark_live_self now (r ∷ rows) = ground (arith, find-mark_live_self now rows)

  -- An insertion, at the end, hides no row.
  pub find-insert_found :
      (b a : A) (rows : List (Row A))
      → find key k rows ≡ some a
      → find key k (insert b rows) ≡ some a
  unfolding select
  find-insert_found b a [] h = cc
  find-insert_found b a (r ∷ rows) h = ground (arith, find-insert_found b a rows)
