-- ===== src/Calc.antt =====
-- pkg/runtime/calc: from the predicates of a query to the shards that it touches.
pub mod BTree
pub mod Logic
