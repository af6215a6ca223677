-- ===== src/Cluster/Leader.antt =====
-- Who is the leader, in every order of the nodes' steps.
use tinydm.Cluster.{
  Option, is_leader, failed, Cluster, initial, Query, answered, start, heartbeat, stop,
}
use tinydm.Prelude.{
  ◌≢◌, Bool-cases, Option-cases, inl, inr, ℕ, ◌≡◌, Bool, true, false, some, arith, eqb,
}

-- The steps of the nodes. `Start` is called once, `Stop` on a node whose loop runs. The database ends
-- no session by itself.
pub data Step : Cluster → Cluster → Type 0 where
  started :
      (query : Query) (upserted : Bool) (i : ℕ) (s : Cluster)
      → (s.elector i).connected ≡ false
      → Step s (start query upserted i s)
  beat :
      (query : Query) (upserted : Bool) (i : ℕ) (s : Cluster)
      → (s.elector i).running ≡ true
      → Step s (heartbeat query upserted i s)
  stopped :
      (unlocked updated : Bool) (i : ℕ) (s : Cluster)
      → (s.elector i).running ≡ true
      → Step s (stop unlocked updated i s)

pub data Reachable : Cluster → Type 0 where
  begin : Reachable initial
  next : {s s' : Cluster} → Reachable s → Step s s' → Reachable s'

-- A running node that takes itself for the leader holds the lock.
abbrev Sound : Cluster → Type 0
Sound s = (i : ℕ) → (s.elector i).running ≡ true → (s.elector i).leader ≡ true → s.holder ≡ some i

eqb_iff : (a b : ℕ) → eqb a b ≡ true → a ≡ b
eqb_iff a b h = ground arith

start-Sound : (query : Query) (u : Bool) (i : ℕ) (s : Cluster) → Sound s → Sound (start query u i s)
unfolding start
start-Sound failed u i s h k run lead = elim (Bool-cases (eqb k i)) [
  | inl same ↦ ground (arith, h k)
  | inr other ↦ ground (arith, h k)
]
start-Sound answered u i s h k run lead = elim (Option-cases s.holder) [
  | inl free ↦ ground (arith, h k)
  | inr (j, taken) ↦ ground (arith, h k)
]

heartbeat-Sound :
    (query : Query) (u : Bool) (i : ℕ) (s : Cluster) → Sound s → Sound (heartbeat query u i s)
unfolding heartbeat
heartbeat-Sound failed u i s h k run lead = ground (arith, h k)
heartbeat-Sound answered u i s h k run lead = elim (Option-cases s.holder) [
  | inl free ↦ ground (arith, h k)
  | inr (j, taken) ↦ ground (arith, h k)
]

stop-Sound : (u v : Bool) (i : ℕ) (s : Cluster) → Sound s → Sound (stop u v i s)
unfolding stop
stop-Sound u v i s h k run lead = ground (arith, h k)

Reachable-Sound : (s : Cluster) → Reachable s → Sound s
Reachable-Sound s begin = λ i run lead. cc
Reachable-Sound s (next r (started query u i t c)) = start-Sound query u i t (Reachable-Sound t r)
Reachable-Sound s (next r (beat query u i t c)) = heartbeat-Sound query u i t (Reachable-Sound t r)
Reachable-Sound s (next r (stopped u v i t c)) = stop-Sound u v i t (Reachable-Sound t r)

same_holder : (i j : ℕ) (o : Option ℕ) → o ≡ some i → o ≡ some j → i ≡ j
same_holder i j o h k = ground arith

-- However the nodes' starts, heartbeats and stops follow one another, and whichever of their statements
-- fail, two running nodes do not both take themselves for the leader, as long as the database ends
-- no session.
pub one_leader :
    (s : Cluster) (i j : ℕ)
    → Reachable s
    → (s.elector i).running ≡ true
    → is_leader i s ≡ true
    → (s.elector j).running ≡ true
    → is_leader j s ≡ true
    → i ≡ j
one_leader s i j r run_i lead_i run_j lead_j =
    let h = Reachable-Sound s r in same_holder i j s.holder (h i run_i lead_i) (h j run_j lead_j)

-- When the leader stops and gives its lock back, the next heartbeat of any running node, whose query
-- is answered, makes that node the leader; the node that stopped still says that it is one.
pub successor_lem :
    (s : Cluster) (i j : ℕ) (updated upserted : Bool)
    → Reachable s
    → i ≢ j
    → (s.elector i).running ≡ true
    → (s.elector i).connected ≡ true
    → is_leader i s ≡ true
    → is_leader j s ≡ false
    → (is_leader j (heartbeat answered upserted j (stop true updated i s)) ≡ true)
      × (is_leader i (heartbeat answered upserted j (stop true updated i s)) ≡ true)
unfolding heartbeat stop
successor_lem s i j updated upserted r apart run up lead idle =
    let held = Reachable-Sound s r i run lead in (ground arith, ground arith)
