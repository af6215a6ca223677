-- ===== src/Web/Pages.antt =====
-- internal/web/handlers.go: the page that a query names, and the bar that leads to the others. The
-- number of rows is below 2 ^ 63 - 200, so that no sum overflows.
pub mod Laws
use tinydm.Prelude.{ℕ, ◌+◌, ◌-◌, ◌*◌, ◌/◌, ◌%◌, ◌^◌, String, Bool, ltb, leb, if◌then◌else◌}
use tinydm.Prelude.Int.{ℤ, pos, pos_part, ltb_ℤ, leb_ℤ}
use tinydm.Strconv.{atoi}
use tinydm.Meta.Media.{int_of}
use tinydm.Web.{WebRequest}

pub record WebPagination : Type 0 where
  pub page : ℕ
  pub limit : ℕ
  pub total : ℕ
  pub total_pages : ℕ
  pub has_prev : Bool
  pub has_next : Bool
  pub prev_page : ℕ
  pub next_page : ℕ
  pub extra_query : String

abbrev page_of : ℤ → ℕ
page_of page = if ltb_ℤ page (pos 1) then 1 else pos_part page

abbrev web_limit : ℤ → ℕ
web_limit limit =
    if leb_ℤ limit (pos 0) then 50 else if ltb_ℤ (pos 200) limit then 200 else pos_part limit

-- `parsePage`: the page and the limit
unfoldable parse_page : WebRequest → ℕ × ℕ
parse_page r = (page_of (atoi (r.query "page")), web_limit (atoi (r.query "limit")))

abbrev total_pages_of : ℕ → ℕ → ℕ
total_pages_of total limit =
    let pages = (total + limit - 1) / limit in if ltb pages 1 then 1 else pages

abbrev page_within : ℕ → ℕ → ℕ
page_within pages page =
    let from_one = if ltb page 1 then 1 else page in if ltb pages from_one then pages else from_one

abbrev limit_or_50 : ℕ → ℕ
limit_or_50 limit = if leb limit 0 then 50 else limit

-- `newWebPagination`, on what `parsePage` gives
unfoldable pub new_web_pagination : ℕ → ℕ → ℕ → String → WebPagination
new_web_pagination total page limit extra_query =
    let limit' = limit_or_50 limit in
    let pages = total_pages_of total limit' in
    let page' = page_within pages page in
    record {
      page = page';
      limit = limit';
      total = total;
      total_pages = pages;
      has_prev = ltb 1 page';
      has_next = ltb page' pages;
      prev_page = page' - 1;
      next_page = page' + 1;
      extra_query = extra_query;
    }

-- `pageOffset`, whose product wraps
unfoldable pub page_offset : ℕ → ℕ → ℤ
page_offset page limit =
    let from_one = if ltb page 1 then 1 else page in int_of ((from_one - 1) * limit % 2 ^ 64)
