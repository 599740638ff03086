-- ===== src/Merge.antt =====
-- pkg/merge: how the results of the shards become one.
pub mod Aggregator
