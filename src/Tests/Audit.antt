-- ===== src/Tests/Audit.antt =====
-- The audit's log.
use tinydm.Prelude.{none, List, [], ◌∷◌}
use tinydm.Prelude.Int.{pos}
use tinydm.Sql.{Conn}
use tinydm.Audit.Store.{Event, Filter}
use tinydm.Tests.{sqlite}
use tinydm.Audit.Store

abbrev event : Event
event = record {
  id = "e1";
  principal = "ann";
  action = "document.create";
  resource = "d";
  detail = "";
  created_at = "t0";
}

abbrev log : Conn (List Event)
log = record {
  tables = event ∷ [];
  engine = sqlite;
  world = λ n. record { fault = none; now = "now" };
  tick = 0;
}

abbrev by_ann : Filter
by_ann = record {
  principal = "ann";
  action = "document.*";
  resource = "";
  from = "";
  to = "";
  limit = pos 0;
  offset = pos 0;
}
