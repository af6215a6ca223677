-- ===== src/Api/Audit/Laws.antt =====
-- The pages of the audit's log that internal/api/audit.go replies with.
use tinydm.Prelude.{◌≡◌, refl, ◌∙◌, ap, ◌||◌, List, length, Bool-cases, inl, inr}
use tinydm.Prelude.Int.{ℤ, pos, ltb_ℤ, leb_ℤ}
use tinydm.Repo.{paged}
use tinydm.Sql.{Conn}
use tinydm.Sql.Quiet.{Quiet, ticked}
use tinydm.Audit.Store.{Event, Filter, limit_of, offset_of, max_limit}
use tinydm.Audit.Store.Laws.{accepted, newest_first, page_of, list_lem}
use tinydm.Strconv.{atoi}
use tinydm.Api.{Request, json, events, paged_meta}
use tinydm.Api.Audit.{filter_of, listed, list}

limit_again : (l : ℤ) → limit_of (limit_of l) ≡ limit_of l
limit_again l = elim (Bool-cases (leb_ℤ l (pos 0) || ltb_ℤ max_limit l)) [
  | inl out ↦ rw out refl
  | inr inside ↦ rw (inside, inside) refl
]

offset_again : (o : ℤ) → offset_of (offset_of o) ≡ offset_of o
offset_again o = elim (Bool-cases (ltb_ℤ o (pos 0))) [
  | inl below ↦ rw below refl
  | inr inside ↦ rw (inside, inside) refl
]

same_page :
    (f : Filter) (all : List Event)
    → limit_of f.limit ≡ f.limit
    → offset_of f.offset ≡ f.offset
    → page_of f all ≡ paged (record { limit = f.limit; offset = f.offset }) all
same_page f all e e' =
    ap (λ l. paged (record { limit = l; offset = offset_of f.offset }) all) e
    ∙ ap (λ o. paged (record { limit = f.limit; offset = o }) all) e'

-- Where the driver does not fail, List replies with the newest events that the query accepts, from the
-- offset on and at most as many as the limit, which are those of the reply's own envelope, with the
-- number of all of them.
pub list_events :
    (r : Request) (log : Conn (List Event))
    → Quiet log
    → let f = filter_of r in
      let all = accepted f log.engine log.tables in
      list r log ≡ (
        json 200 (
            events
              (paged (record { limit = f.limit; offset = f.offset }) (newest_first log.engine all))
              (paged_meta (length all) f.limit f.offset)),
        ticked (ticked log),
      )
unfolding list filter_of
list_events r log q =
    let f = filter_of r in
    let all = newest_first log.engine (accepted f log.engine log.tables) in
    let count = length (accepted f log.engine log.tables) in
    ap (listed f) (list_lem f log q)
    ∙ ap (λ page. (json 200 (events page (paged_meta count f.limit f.offset)), ticked (ticked log)))
        (same_page f all (limit_again (atoi (r.query "limit")))
          (offset_again (atoi (r.query "offset"))))
