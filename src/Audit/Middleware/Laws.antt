-- ===== src/Audit/Middleware/Laws.antt =====
-- What the audit's middleware of internal/audit/middleware.go records of a request.
use tinydm.Prelude.{
  ◌≡◌, refl, ◌∙◌, ap, String, Bool, true, false, ◌&&◌, not, none, some, List, [], ◌∷◌, ◌++◌, any,
  arith, if◌then◌else◌, ◌==◌,
}
use tinydm.Sql.{Conn}
use tinydm.Sql.Quiet.{Quiet}
use tinydm.Schema.{Tables}
use tinydm.Auth.{Principal}
use tinydm.Api.{Request, Reply, Handler}
use tinydm.Audit.Store.{Event}
use tinydm.Audit.Store.Laws.{event_at, record_event_adds}
use tinydm.Audit.Action.{derive_action, derive_resource}
use tinydm.Audit.Middleware.{is_reading, status_of, is_success, Entry, entry, written, middleware}

abbrev pub is_recorded : String → Reply → Bool
is_recorded method reply = not (is_reading method) && is_success (status_of reply)

abbrev pub event_of : String → String → String → Principal → Request → Conn (List Event) → Event
event_of id method pattern p r log =
    event_at id p.username (derive_action method pattern) (derive_resource r.url_param) "" log

module _ (id method pattern : String) (p : Principal) (next : Handler) (r : Request)
    (c : Conn Tables) (log : Conn (List Event)) where
  entry_lem :
      (reply : Reply)
      → r.principal ≡ some p
      → entry method pattern r reply ≡ (
          if is_recorded method reply
          then some (record {
            principal = p.username;
            action = derive_action method pattern;
            resource = derive_resource r.url_param;
          })
          else none)
  unfolding entry
  entry_lem reply who = ground arith

  written_lem :
      (b : Bool) (e : Entry)
      → Quiet log
      → any (λ e. e.id == id) log.tables ≡ false
      → (written id (if b then some e else none) log).tables ≡ (
          if b
          then log.tables ++ event_at id e.principal e.action e.resource "" log ∷ []
          else log.tables)
  written_lem true e q fresh =
      ap (λ x. x.1.tables) (record_event_adds id e.principal e.action e.resource "" log q fresh)
  written_lem false e q fresh = refl

  -- Around any handler, the reply and the tables are the handler's; and for a request with a principal,
  -- where the log's database does not fail and the identifier is new, the log gains the event of the
  -- request if the method is not one that reads and the reply is a success, and otherwise nothing.
  pub middleware_lem :
      r.principal ≡ some p
      → Quiet log
      → any (λ e. e.id == id) log.tables ≡ false
      → let (reply, c') = next r c in
        let (reply', (c'', log')) = middleware id method pattern next r c log in
        (reply' ≡ reply)
        × ((c'' ≡ c')
            × (log'.tables ≡ (
                if is_recorded method reply
                then log.tables ++ event_of id method pattern p r log ∷ []
                else log.tables)))
  unfolding middleware
  middleware_lem who q fresh = (
    refl,
    (
      refl,
      ap (λ o. (written id o log).tables) (entry_lem (next r c).0 who)
          ∙ written_lem (is_recorded method (next r c).0) _ q fresh,
    ),
  )
