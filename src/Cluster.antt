-- ===== src/Cluster.antt =====
-- internal/cluster/leader.go: the election of a leader among nodes that share a PostgreSQL database,
-- and internal/cluster/locker.go.
-- The advisory lock `leaderLockID` belongs to a session; each node asks for it on one connection of
-- its own, so that the session is named by the node's number. `Cluster` holds what every node's
-- elector holds, and what the database does.
pub mod Leader
pub mod Locker
use tinydm.Prelude.{ℕ, Bool, true, false, not, ◌&&◌, Option, none, some, eqb, if◌then◌else◌}

-- `PGLeaderElector`: the connection, the flag, and whether the heartbeat runs.
pub record Elector : Type 0 where
  pub connected : Bool
  pub leader : Bool
  pub running : Bool

-- The holder of the lock, and the column `is_leader` of the rows of cluster_nodes.
pub record Cluster : Type 0 where
  pub elector : ℕ → Elector
  pub holder : Option ℕ
  pub row : ℕ → Option Bool

-- `NewPGLeaderElector`
abbrev new_elector : Elector
new_elector = record { connected = false; leader = false; running = false }

abbrev pub initial : Cluster
initial = record { elector = λ i. new_elector; holder = none; row = λ i. none }

abbrev at_node : {A : Type 0} → ℕ → A → (ℕ → A) → ℕ → A
at_node i a f k = if eqb k i then a else f k

-- pg_try_advisory_lock: it succeeds if the lock is free, or the session's own.
abbrev try_lock : ℕ → Option ℕ → Bool × Option ℕ
try_lock i none = (true, some i)
try_lock i (some j) = (eqb i j, some j)

-- pg_advisory_unlock, and the end of a session: the lock is free if it was the session's.
abbrev unlock : ℕ → Option ℕ → Option ℕ
unlock i none = none
unlock i (some j) = if eqb i j then none else some j

-- `upsertHeartbeat`, which only logs a failure
abbrev upsert_heartbeat : Bool → ℕ → Bool → (ℕ → Option Bool) → ℕ → Option Bool
upsert_heartbeat false i leader row = row
upsert_heartbeat true i leader row = at_node i (some leader) row

-- What a query of the lock gives: an error, or an answer.
pub data Query : Type 0 where
  failed : Query
  answered : Query

-- `Start`, after the connection; `upserted` tells whether the heartbeat's statement succeeds. Where
-- the query fails no loop starts, and the flag keeps its value.
unfoldable pub start : Query → Bool → ℕ → Cluster → Cluster
start failed upserted i s = record s {
  elector = at_node i (record (s.elector i) { connected = true }) s.elector;
}
start answered upserted i s =
    let (is_leader, holder) = try_lock i s.holder in
    record {
      elector =
          at_node i (record { connected = true; leader = is_leader; running = true }) s.elector;
      holder = holder;
      row = upsert_heartbeat upserted i is_leader s.row;
    }

-- A turn of `heartbeatLoop`: the row is written with the flag as it was, then a node that is not the
-- leader asks for the lock.
unfoldable pub heartbeat : Query → Bool → ℕ → Cluster → Cluster
heartbeat query upserted i s =
    let row = upsert_heartbeat upserted i (s.elector i).leader s.row in
    if (s.elector i).leader then record s { row = row } else elim query [
      | failed ↦ record s { row = row }
      | answered ↦
          let (won, holder) = try_lock i s.holder in
          record {
            elector = at_node i (record (s.elector i) { leader = won }) s.elector;
            holder = holder;
            row = row;
          }
    ]

-- `Stop`; `unlocked` and `updated` tell whether its statements succeed. The connection goes back to
-- the pool, its session stays.
unfoldable pub stop : Bool → Bool → ℕ → Cluster → Cluster
stop unlocked updated i s = record {
  elector = at_node i (record (s.elector i) { running = false }) s.elector;
  holder =
      if (s.elector i).connected && ((s.elector i).leader && unlocked)
      then unlock i s.holder
      else s.holder;
  row =
      if (s.elector i).connected && updated
      then at_node i (elim (s.row i) [ none ↦ none | some b ↦ some false ]) s.row
      else s.row;
}

-- `IsLeader`
abbrev pub is_leader : ℕ → Cluster → Bool
is_leader i s = (s.elector i).leader
