-- ===== src/Web/Pages/Laws.antt =====
-- The bar of pages covers the rows.
use tinydm.Prelude.{
  ap, ◌≡◌, false, ℕ, zero, suc, ◌+◌, ◌-◌, ◌*◌, ◌/◌, ◌≤◌, ◌<◌, String, arith, ltb, if◌then◌else◌,
}
use native.Mathlib.Nat.{div-mul-le_self, lt-div-mul-add, suc-mul}
use tinydm.Web.Pages.{new_web_pagination, total_pages_of, page_within, limit_or_50}

less_one : (k : ℕ) → suc k - 1 ≡ k
less_one k = omega arith

-- With `q` as the quotient of the pages, which is at least one
covered :
    (q total limit : ℕ)
    → 0 < limit
    → q * limit ≤ total + limit - 1
    → total + limit - 1 < q * limit + limit
    → let p = if ltb q 1 then 1 else q in
      (1 ≤ p) × ((total ≤ p * limit) × (0 < total → (p - 1) * limit < total))
covered zero total limit h below above = (omega arith, (omega arith, λ some_row. omega arith))
covered (suc k) total limit h below above =
    let e = suc-mul k limit in
    let few : total ≤ suc k * limit = omega (arith, e) in
    let many : 0 < total → (suc k - 1) * limit < total =
      λ some_row. omega (arith, e, ap (λ n. n * limit) (less_one k)) in
    let at_least : ltb (suc k) 1 ≡ false = ground arith in rw at_least (omega arith, (few, many))

page_within_bounds :
    (pages page : ℕ) → 1 ≤ pages → (1 ≤ page_within pages page) × (page_within pages page ≤ pages)
page_within_bounds pages page h = (ground arith, ground arith)

limit_or_50-pos : (limit : ℕ) → 0 < limit_or_50 limit
limit_or_50-pos limit = ground arith

-- Whatever page is asked for, the bar is on one of its pages, which are numbered from 1; all pages
-- together have room for all rows, and without the last they have not, if there are rows.
pub new_web_pagination_bounds :
    (total page limit : ℕ) (extra_query : String)
    → let g = new_web_pagination total page limit extra_query in
      ((1 ≤ g.page) × (g.page ≤ g.total_pages))
      × ((total ≤ g.total_pages * g.limit) × (0 < total → (g.total_pages - 1) * g.limit < total))
unfolding new_web_pagination
new_web_pagination_bounds total page limit extra_query =
    let l = limit_or_50 limit in
    let h = limit_or_50-pos limit in
    let (one, rest) =
      covered ((total + l - 1) / l) total l h (div-mul-le_self (total + l - 1) l)
        (lt-div-mul-add {a = total + l - 1} h) in
    (page_within_bounds (total_pages_of total l) page one, rest)
