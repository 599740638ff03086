-- ===== src/Rule.antt =====
-- pkg/proto/rule: which shard a row of a logical table belongs to, and the steps of shard columns.
pub mod Topology
pub mod Shards
pub mod Steps
pub mod Sharding
