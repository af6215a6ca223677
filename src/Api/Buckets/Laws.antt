-- ===== src/Api/Buckets/Laws.antt =====
-- The handlers for buckets of internal/api/buckets.go: pages, and names that are taken.
use tinydm.Strconv.{atoi}
use tinydm.Prelude.{
  Bool-cases, inl, inr, ◌≤◌, ℕ, zero, suc, ◌+◌, String, ◌≡◌, refl, Bool, true, false, not, ◌&&◌,
  some, List, [], ◌∷◌, arith, length, drop, ltb, if◌then◌else◌, ◌==◌,
}
use tinydm.Sql.{error_text, Conn}
use tinydm.Repo.{wrap_constraint, contains, quoted, PageOpts, validated, order_by}
use tinydm.Repo.Buckets.{create_bucket}
use tinydm.Api.{internal_error, error_body, Request, page_params}
use tinydm.Api.Buckets.{create}
use tinydm.Repo.Pages.{validated_bounds}
use Prim.Native.String.{◌++◌}
use tinydm.Prelude.Int.{ℤ, pos, negsuc, pos_part, neg_part}
use tinydm.Sql.Quiet.{Quiet, ticked}
use tinydm.Sql.Table.{select, any_row}
use tinydm.Schema.{Project, Bucket, Tables}

-- The numbers of the query.
abbrev query_opts : Request → PageOpts
query_opts r = record { limit = atoi (r.query "limit"); offset = atoi (r.query "offset") }

-- `pageParams` repeats what `validated` of internal/repo/store.go does, on the numbers of the query.
pub page_params-eq_validated : (r : Request) → page_params r ≡ validated (query_opts r)
unfolding page_params validated
page_params-eq_validated r = refl

module _ {A : Type 0} where
  abbrev pub is_nil : List A → Bool
  is_nil [] = true
  is_nil (x ∷ xs) = false

  ltb-length : (n : ℕ) (xs : List A) → ltb n (length xs) ≡ not (is_nil (drop n xs))
  ltb-length zero [] = refl
  ltb-length zero (x ∷ xs) = ground arith
  ltb-length (suc n) [] = ground arith
  ltb-length (suc n) (x ∷ xs) = ground (arith, ltb-length n xs)

  -- A row follows the page.
  abbrev pub has_next : PageOpts → List A → Bool
  has_next page rows = not (is_nil (drop (pos_part page.offset + pos_part page.limit) rows))

positive_lem : (z : ℤ) → 1 ≤ pos_part z → neg_part z ≡ 0
positive_lem (pos n) h = refl
positive_lem (negsuc n) h = absurd (omega (arith, h))

-- The options of a request are in range, so that a second `validated` keeps them.
page_params-bounds :
    (r : Request)
    → (neg_part (page_params r).limit ≡ 0)
      × (neg_part (page_params r).offset ≡ 0)
      × (validated (page_params r) ≡ page_params r)
page_params-bounds r =
    let raw = query_opts r in
    let (low, high, offset, again) = validated_bounds raw in
    rw (page_params-eq_validated r) (positive_lem (validated raw).limit low, offset, again)

-- The live buckets of a project, in the order of the list.
abbrev pub ordered : Project → Conn Tables → List Bucket
ordered p c =
    order_by (λ b b'. c.engine.text_le b.name b'.name)
      (select (λ b. b.project_id == p.id) c.tables.buckets)

-- `Create` of a name that another bucket of the project has, be that one deleted, where the driver
-- does not fail and the identifier is new: no table changes, and the reply is a conflict that names
-- the bucket where the engine's message is SQLite's, and an internal error where it is another.
pub create_taken :
    (id name description : String) (r : Request) (p : Project) (c : Conn Tables)
    → Quiet c
    → r.project ≡ some p
    → (name == "") ≡ false
    → any_row (λ b. b.id == id) c.tables.buckets ≡ false
    → any_row (λ b. b.project_id == p.id && b.name == name) c.tables.buckets ≡ true
    → create id (some (name, description)) r c ≡ (
      if contains
            (c.engine.unique_violation "buckets.project_id, buckets.name")
            "UNIQUE constraint failed"
          then error_body 409 ("bucket" ++ (" " ++ (quoted name ++ " already exists")))
          else internal_error,
      ticked c,
    )
unfolding create create_bucket wrap_constraint error_text
create_taken id name description r p c q inside named new taken =
    let q0 = q c.tick in
    elim (Bool-cases (
      contains (c.engine.unique_violation "buckets.project_id, buckets.name")
        "UNIQUE constraint failed")) [ inl sqlite ↦ ground arith | inr other ↦ ground arith ]
