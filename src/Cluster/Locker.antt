-- ===== src/Cluster/Locker.antt =====
-- internal/cluster/locker.go: `PGLocker`. A lock is an advisory lock on a connection of its own.
use tinydm.Prelude.{
  ◌<◌, ◌≤◌, arith, ℕ, ◌-◌, ◌*◌, ◌%◌, ◌^◌, String, List, [], ◌∷◌, ltb, if◌then◌else◌,
}
use tinydm.Prelude.Int.{pos_part, neg_part, ℤ, pos, negsuc}
use Prim.Native.Nat.{bit_xor}
use tinydm.Sql.Like.{codes}

-- hash/fnv, New64a: the bytes of a text are its code points, if it is ASCII.
abbrev offset64 : ℕ
offset64 = 14695981039346656037

abbrev prime64 : ℕ
prime64 = 1099511628211

unfoldable pub fnv64a : ℕ → List ℕ → ℕ
fnv64a h [] = h
fnv64a h (b ∷ bytes) = fnv64a (bit_xor h b * prime64 % 2 ^ 64) bytes

-- A conversion of uint64 to int64
abbrev to_int64 : ℕ → ℤ
to_int64 n = if ltb n (2 ^ 63) then pos n else negsuc (2 ^ 64 - 1 - n)

-- `keyToInt64`
unfoldable pub key_to_int64 : String → ℤ
key_to_int64 key = to_int64 (fnv64a offset64 (codes key))

-- `leaderLockID`
abbrev pub leader_lock_id : ℤ
leader_lock_id = pos 443198911189067267

fnv64a-lt : (h : ℕ) (bytes : List ℕ) → h < 2 ^ 64 → fnv64a h bytes < 2 ^ 64
unfolding fnv64a
fnv64a-lt h [] low = low
fnv64a-lt h (b ∷ bytes) low = fnv64a-lt (bit_xor h b * prime64 % 2 ^ 64) bytes (omega arith)

to_int64_bounds :
    (n : ℕ) → n < 2 ^ 64 → (pos_part (to_int64 n) < 2 ^ 63) × (neg_part (to_int64 n) ≤ 2 ^ 63)
to_int64_bounds n low = ground arith

-- The identifier of a lock is an int64.
pub key_to_int64_bounds :
    (key : String) → (pos_part (key_to_int64 key) < 2 ^ 63) × (neg_part (key_to_int64 key) ≤ 2 ^ 63)
unfolding key_to_int64
key_to_int64_bounds key =
    to_int64_bounds (fnv64a offset64 (codes key)) (fnv64a-lt offset64 (codes key) (omega arith))
