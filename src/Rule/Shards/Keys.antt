-- ===== src/Rule/Shards/Keys.antt =====
-- The packed shards of pkg/proto/rule/shards.go and their order.
use native.Mathlib.Nat.{mod-eq_of_lt}
use arana.Prelude.{ℕ, ◌+◌, ◌*◌, ◌/◌, ◌%◌, ◌^◌, ◌<◌, ◌≡◌, arith, ltb}
use arana.Prelude.Bits.{bit_or-high_low}
use arana.Rule.Shards.{key, get_db, get_table, less_shard}

key-sum : (db tb : ℕ) → db < 2 ^ 32 → tb < 2 ^ 32 → key db tb ≡ db * 2 ^ 32 + tb
unfolding key
key-sum db tb h k =
    rw (mod-eq_of_lt {n = db * 2 ^ 32} {m = 2 ^ 64} (omega arith)) (bit_or-high_low 32 db tb k)

-- A database and a table, each a uint32, are packed into a key from which both are read back.
pub get-key :
    (db tb : ℕ)
    → db < 2 ^ 32
    → tb < 2 ^ 32
    → (get_db (key db tb) ≡ db) × (get_table (key db tb) ≡ tb)
unfolding get_db get_table
get-key db tb h k = (omega (arith, key-sum db tb h k), omega (arith, key-sum db tb h k))

pub key-get : (s : ℕ) → s < 2 ^ 64 → key (get_db s) (get_table s) ≡ s
unfolding get_db get_table
key-get s h = omega (arith, key-sum (s / 2 ^ 32 % 2 ^ 32) (s % 2 ^ 32))

-- Less on the databases and then the tables of two keys is the order of the keys as numbers.
pub less_shard-ltb : (s that : ℕ) → s < 2 ^ 64 → that < 2 ^ 64 → less_shard s that ≡ ltb s that
unfolding less_shard get_db get_table
less_shard-ltb s that h k = ground arith
