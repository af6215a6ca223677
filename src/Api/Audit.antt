-- ===== src/Api/Audit.antt =====
-- internal/api/audit.go, on the connection of the audit's log.
pub mod Laws
use tinydm.Prelude.{ℕ, String, List}
use tinydm.Sql.{Result, ok, err, Conn}
use tinydm.Strconv.{atoi}
use tinydm.Audit.Store.{Event, Filter, limit_of, offset_of}
use tinydm.Api.{Request, Reply, json, internal_error, events, paged_meta}
use tinydm.Audit.Store

-- The filter that the query asks for; `limit_of` and `offset_of` are the clamps, which the handler
-- repeats.
unfoldable pub filter_of : Request → Filter
filter_of r = record {
  principal = r.query "principal";
  action = r.query "action";
  resource = r.query "resource";
  from = r.query "from";
  to = r.query "to";
  limit = limit_of (atoi (r.query "limit"));
  offset = offset_of (atoi (r.query "offset"));
}

abbrev listed : Filter → Result (List Event × ℕ) × Conn (List Event) → Reply × Conn (List Event)
listed f (err e, log) = (internal_error, log)
listed f (ok found, log) = (json 200 (events found.0 (paged_meta found.1 f.limit f.offset)), log)

-- `AuditHandler.List`
unfoldable pub list : Request → Conn (List Event) → Reply × Conn (List Event)
list r log = let f = filter_of r in listed f (Store.list f log)
