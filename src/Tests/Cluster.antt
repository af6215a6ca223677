-- ===== src/Tests/Cluster.antt =====
-- Nodes that elect a leader, and the identifiers of locks.
use tinydm.Prelude.{ℕ, ◌≡◌, refl, true, arith}
use tinydm.Cluster.{Cluster, initial, answered, start, heartbeat, stop, is_leader}
use tinydm.Cluster.Leader.{Reachable, begin, next, started, one_leader, successor_lem}
use tinydm.Cluster.Locker.{key_to_int64, fnv64a, leader_lock_id}

abbrev two : Cluster
two = start answered true 1 (start answered true 0 initial)

two-Reachable : Reachable two
unfolding start
two-Reachable =
    next (next begin (started answered true 0 initial refl))
      (started answered true 1 (start answered true 0 initial) refl)

abbrev leader_node : ℕ
leader_node = 0

one_leader_example : leader_node ≡ leader_node
unfolding start
one_leader_example = one_leader two leader_node leader_node two-Reachable refl refl refl refl

successor_example :
    (is_leader 1 (heartbeat answered true 1 (stop true true 0 two)) ≡ true)
    × (is_leader 0 (heartbeat answered true 1 (stop true true 0 two)) ≡ true)
unfolding start
successor_example =
    successor_lem two 0 1 true true two-Reachable (λ e. absurd (omega (arith, e))) refl refl refl
      refl

-- The constant of the source is the hash that its comment names.
leader_lock_id_test : key_to_int64 "tinydm:leader" ≡ leader_lock_id
unfolding key_to_int64 fnv64a
leader_lock_id_test = refl
